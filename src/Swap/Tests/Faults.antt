-- ===== src/Swap/Tests/Faults.antt =====
-- A run of do_swap_page, and the counts of a swap device.
mod Lost
use comex.Base.{
  ℕ, ◌+◌, ◌≡◌, refl, Bool, true, false, [], Option, none, some, ◌==◌, if◌then◌else◌, arith,
}
use comex.Base.Int.{pos}
use comex.Swap.{SwapCache, local_entry}
use comex.Swap.Consistent.{IsConsistent}
use comex.Swap.Devices.{SwapMap, Devices, SwapInfo, is_comex}
use comex.Swap.Devices.Counts.{Use, IsSized, encode, drop_ref, IsAllowed, after}
use comex.Swap.Devices.Counts.Steps.{byte, IsSlot, run}
use comex.Swap.Devices.Counts.Refines.{run-after}
use comex.Swap.Devices.Outside.{IsOutside}
use comex.Swap.Fault.{Answers, Faulting, swapped, present, ordinary, do_swap_page}
use comex.Swap.Fault.Refault.{IsSmooth, Left, do_swap_page-Left}
use comex.Swap.Out.{Kernel}
use comex.Swap.Tests.{tree, entries, empty_cache, host, settings, numbered}

abbrev bits : SwapMap
bits = record { cache_bit = 6; continued_bit = 7; map_max = 62; map_shmem = 191 }

-- No count is continued.
abbrev never : ℕ → (type offset count : ℕ) → ℕ × Bool
never x t o c = (x, false)

-- Slot 2 has one reference and a page in the swap cache, slot 1 has two references.
abbrev device_0 : SwapInfo
device_0 = record {
  used = true;
  prio = pos 0;
  max = 100;
  swap_map = λ o. if o == 1 then 2 else if o == 2 then 65 else 0;
  lowest_bit = 3;
  highest_bit = 99;
  inuse_pages = 2;
}

-- One device, of type 0, with 100 slots; the slots 1 and 2 are in use.
abbrev one_device : Devices ℕ
one_device = record {
  swap_info = λ t. if t == 0 then some device_0 else none;
  nr_swapfiles = 1;
  nr_swap_pages = pos 97;
  highest_priority = none;
  freed = [];
  more = 0;
}

-- Page 5 is cached under the entry of page 130 of the node's own pool.
abbrev pool_entry : ℕ
pool_entry = local_entry entries 130

abbrev pool_cached : SwapCache (ℕ → Option ℕ)
pool_cached = record empty_cache {
  page = λ p. record {
    count = pos 3;
    swap_cache = p == 5;
    private = if p == 5 then 9895604649984 + 130 else 0;
    dirty = true;
  };
  tree = λ s k. if k == 9895604649984 + 130 then some 5 else none;
}

pool_cached-IsConsistent : IsConsistent tree (λ e. 0) pool_cached
pool_cached-IsConsistent = record {
  held = λ e p f. (ground arith, ground arith);
  back = λ p f. ground arith;
}

abbrev device_kernel : Kernel (ℕ → Option ℕ) (Devices ℕ)
device_kernel = record {
  radix = tree;
  space = λ e. 0;
  swapops = entries;
  get_swap_page = λ k. (k, 0);
  swapcache_free = λ k e. k;
  strcmp = λ x y. pos 0;
}

abbrev faulting : Faulting ℕ (ℕ → ℕ) (ℕ → Option ℕ) ℕ
faulting = record {
  guest = record {
    host = record {
      buddy = host.buddy;
      memory = host.memory;
      out = host.out;
      cache = pool_cached;
      devices = one_device;
      swap_to_comex = 1;
      swap_to_disk = 0;
      swap_total = 1;
    };
    batches = λ n. [];
    messages = [];
    in_total = 0;
    in_local = 0;
  };
  pte = swapped pool_entry;
  anon_pages = pos 0;
  swap_ents = pos 1;
}

abbrev smooth : Answers
smooth = record {
  unmap_same = true;
  kind = ordinary;
  is_poisoned = false;
  locked = true;
  ksm_copy = λ p. p;
  charge_fails = false;
  pte_same = true;
  uptodate = true;
  is_ksm = false;
  mapcount = pos 0;
  writeback = false;
  suspended = false;
  may_write = true;
  write = false;
}

smooth-IsSmooth : IsSmooth smooth 5
smooth-IsSmooth = record {
  unmap_same = refl;
  kind = refl;
  is_poisoned = refl;
  locked = refl;
  no_copy = refl;
  charged = refl;
  pte_same = refl;
  uptodate = refl;
  writeback = refl;
  suspended = refl;
  reads = refl;
}

pool_entry-IsOutside : IsOutside entries bits never one_device pool_entry
unfolding local_entry is_comex
pool_entry-IsOutside = record { type = refl; no_device = refl }

do_swap_page-Left_example :
    (f' : Faulting ℕ (ℕ → ℕ) (ℕ → Option ℕ) ℕ) × (do_swap_page device_kernel bits never numbered
        settings
        (λ f. (f, 0))
        (λ n. [])
        3
        smooth
        faulting
        pool_entry
      ≡ some (f', 0))
    × (f'.pte ≡ present 5 false false)
    × Left device_kernel bits never faulting.guest f'.guest pool_entry
unfolding local_entry
do_swap_page-Left_example =
    do_swap_page-Left device_kernel bits never numbered settings (λ f. (f, 0)) (λ n. []) 3 smooth
      faulting pool_entry 5 smooth-IsSmooth (λ e. ground arith) pool_cached-IsConsistent refl
      pool_entry-IsOutside

abbrev one_cached_ref : Use
one_cached_ref = record { cached = true; refs = 1 }

bits-IsSized : IsSized bits
bits-IsSized = record {
  below_cache = omega arith;
  below_continued = omega arith;
  below_shmem = omega arith;
}

device_0-IsSlot : IsSlot entries bits never (λ e. false) one_device 2 device_0 one_cached_ref
unfolding is_comex encode
device_0-IsSlot = record {
  some_entry = λ e. ground arith;
  swap_entry = refl;
  other_type = refl;
  a_device = omega arith;
  at = refl;
  used = refl;
  in_range = omega arith;
  holds = refl;
  refs = omega arith;
}

run-after_example :
    let out = run entries bits never (λ e. false) drop_ref one_device 2 in
    (byte entries bits never (λ e. false) out.0 2 ≡ encode bits (after drop_ref one_cached_ref).0)
    × (out.1 ≡ (after drop_ref one_cached_ref).1)
unfolding IsAllowed
run-after_example =
    run-after entries bits never (λ e. false) drop_ref one_device 2 device_0 one_cached_ref
      bits-IsSized device_0-IsSlot (omega arith)
