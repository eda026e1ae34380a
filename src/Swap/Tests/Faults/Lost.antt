-- ===== src/Swap/Tests/Faults/Lost.antt =====
-- A page of the pool that is lost.
use comex.Base.{ℕ, ◌≡◌, ◌≢◌, refl, ap, Option, some, [], arith}
use comex.Base.Int.{pos}
use comex.Rmap.{get_task_struct, first_owner, rmap_counter}
use comex.Swap.{disk, place_of}
use comex.Swap.Devices.{Devices}
use comex.Swap.Fault.{Faulting, swapped, do_swap_page}
use comex.Swap.Fault.Lost.{IsLost, add_to_swap-IsLost}
use comex.Swap.Out.{Host, is_eligible, is_ours, add_to_swap}
use comex.Swap.Out.Chosen.{Fits}
use comex.Swap.Out.Pooled.{add_to_swap_succeeds}
use comex.Swap.Tests.{
  entries, empty_cache, host, host-AreValid, host-IsConsistent, settings, candidate, one_vma,
  numbered, some_freed, page_130-free,
}
use comex.Swap.Tests.Faults.{bits, never, one_device, device_kernel, smooth, smooth-IsSmooth}
use comex.WriteOut.Plain.{plain}

abbrev device_host : Host ℕ (ℕ → ℕ) (ℕ → Option ℕ) (Devices ℕ)
device_host = record {
  buddy = host.buddy;
  memory = host.memory;
  out = host.out;
  cache = empty_cache;
  devices = one_device;
  swap_to_comex = 0;
  swap_to_disk = 0;
  swap_total = 0;
}

device_host-Fits : Fits plain device_kernel settings device_host
device_host-Fits = record { pool = omega arith; nodes = omega arith; lent = λ n. tt }

zero-disk : (e : ℕ) → place_of entries e ≢ disk → e ≢ 0
unfolding place_of
zero-disk e n z = n (ap (place_of entries) z)

-- What add_to_swap leaves
swapped_out :
    (h' : Host ℕ (ℕ → ℕ) (ℕ → Option ℕ) (Devices ℕ)) × (add_to_swap plain device_kernel settings
        device_host candidate
        (pos 0)
        5
        88
      ≡ some (h', 1))
    × (h'.devices ≡ one_device)
unfolding is_eligible is_ours get_task_struct first_owner rmap_counter
swapped_out =
    add_to_swap_succeeds plain device_kernel settings device_host some_freed.lists candidate one_vma
      5 88 130 device_host-Fits some_freed.valid host-AreValid refl refl page_130-free refl
      zero-disk (λ e. refl)

abbrev touched : Faulting ℕ (ℕ → ℕ) (ℕ → Option ℕ) ℕ
touched = record {
  guest = record {
    host = swapped_out.0;
    batches = λ n. [];
    messages = [];
    in_total = 0;
    in_local = 0;
  };
  pte = swapped 0;
  anon_pages = pos 0;
  swap_ents = pos 1;
}

add_to_swap-IsLost_example :
    (f' : Faulting ℕ (ℕ → ℕ) (ℕ → Option ℕ) ℕ) × (lost : IsLost plain numbered device_kernel
      settings bits never some_freed.lists touched f')
    × (do_swap_page device_kernel bits never numbered settings
          (λ f. (f, 0))
          (λ n. [])
          3
          smooth
          touched
          lost.entry
        ≡ some (f', 0))
unfolding is_eligible is_ours get_task_struct first_owner rmap_counter
add_to_swap-IsLost_example =
    add_to_swap-IsLost plain numbered device_kernel settings bits never (λ f. (f, 0)) (λ n. []) 3
      device_host some_freed.lists candidate one_vma (pos 0) 5 88 130 smooth touched
      device_host-Fits some_freed.valid host-AreValid host-IsConsistent refl refl refl page_130-free
      swapped_out.1 (ap (λ d. d.swap_info 9) swapped_out.2) smooth-IsSmooth (λ e. ground arith)
