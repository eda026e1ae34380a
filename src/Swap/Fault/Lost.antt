-- ===== src/Swap/Fault/Lost.antt =====
-- A page that is swapped out to the pool and touched again before it leaves the swap cache.
use mathlib.Core.Path.{subst}
use comex.Base.{
  ℕ, ◌≡◌, ◌≢◌, refl, sym, true, false, Bool, ◌&&◌, none, some, ◌==◌, ==_iff, List, if◌then◌else◌,
}
use comex.Base.Int.{ℤ}
use comex.Buddy.Blocks.{Lists, cover}
use comex.Buddy.Valid.{IsValid}
use comex.Buddy.Alloc.{Taken}
use comex.Outgoing.Queue.{AreValid}
use comex.ReadIn.{Reads}
use comex.Rmap.{AnonVma, rmap_counter}
use comex.Swap.{Swapops, local, remote, disk, place_of}
use comex.Swap.Consistent.{IsConsistent}
use comex.Swap.Devices.{SwapMap, Devices, is_comex}
use comex.Swap.Devices.Outside.{IsOutside}
use comex.Swap.Fault.{Answers, Faulting, do_swap_page}
use comex.Swap.Fault.Refault.{IsSmooth, Left, do_swap_page-Left}
use comex.Swap.In.{Round}
use comex.Swap.Out.{Candidate, Host, Kernel, Settings, is_eligible, add_to_swap}
use comex.Swap.Out.Chosen.{Fits}
use comex.Swap.Out.Pooled.{add_to_swap-Pooled}
use comex.WriteOut.{Verbs}

comex_9 : is_comex 9 ≡ true
unfolding is_comex
comex_9 = refl

-- An entry of the pool is one of COMEX.
local-is_comex :
    (ops : Swapops) (entry p : ℕ) → place_of ops entry ≡ local p → (ops.swp_type entry == 9) ≡ true
unfolding place_of
local-is_comex ops entry p h = by-type (ops.swp_type entry == 8) (ops.swp_type entry == 9) _ _ _ h
  where
    by-type :
        (is_8 is_9 : Bool) (n q o : ℕ)
        → (if is_8 then remote n q else if is_9 then local o else disk) ≡ local p
        → is_9 ≡ true
    by-type true is_9 n q o e = absurd (remote-not_local n q e)
      where
        remote-not_local : (n q : ℕ) → remote n q ≡ local p → ⊥
        remote-not_local n q e = cc
    by-type false true n q o e = refl
    by-type false false n q o e = absurd (disk-not_local e)
      where
        disk-not_local : disk ≡ local p → ⊥
        disk-not_local e = cc

module _ {ℓ κ μ ν} {A : Type ℓ} {M : Type κ} {T : Type μ} {X : Type ν} (verbs : Verbs A M)
    (reads : Reads A) (kernel : Kernel T (Devices X)) (settings : Settings) (m : SwapMap)
    (continued : X → (type offset count : ℕ) → X × Bool) where
  open kernel use {radix, space, swapops}
  open settings use {sizes, config}

  -- The page of the pool is taken though it was free, the process has its page, and the entry is not
  -- found any more; no page is on its way back to another node.
  pub record IsLost (ls : Lists) (f f' : Faulting A M T X) : Type (ℓ ⊔ κ ⊔ μ ⊔ ν) where
    pub page_no : ℕ
    pub entry : ℕ
    pub place : place_of swapops entry ≡ local page_no
    pub was_free : cover ls page_no ≡ 1
    pub taken : Taken (sizes.total_pages) ls 0 page_no f'.guest.host.buddy
    pub left : Left kernel m continued f.guest f'.guest entry

  -- If an eligible page is put into the pool by add_to_swap, which returns 1, and its process reads it
  -- before it leaves the swap cache, then, if no device has the type 9, the page is not being
  -- written back and nothing goes wrong, do_swap_page returns 0, the entry is no longer found in
  -- the swap cache, no page is given back, and the page of the pool that the entry leads to, which was
  -- free before, is still taken.
  pub add_to_swap-IsLost :
      (do_wp_page : Faulting A M T X → Faulting A M T X × ℕ) (rounds : ℕ → List Round)
      (page_cluster : ℕ) (h : Host A M T (Devices X)) (ls : Lists) (page : Candidate)
      (avcs : AnonVma) (preload : ℤ) (p : ℕ) (a : A) (j : ℕ) (answers : Answers)
      (f : Faulting A M T X)
      → Fits verbs kernel settings h
      → IsValid (sizes.total_pages) h.buddy ls
      → AreValid verbs config h.out
      → IsConsistent radix space h.cache
      → (h.cache.page p).swap_cache ≡ false
      → page.anon_vma ≡ some avcs
      → (is_eligible verbs kernel settings page && rmap_counter avcs == 1) ≡ true
      → cover ls j ≡ 1
      → add_to_swap verbs kernel settings h page preload p a ≡ some (f.guest.host, 1)
      → f.guest.host.devices.swap_info 9 ≡ none
      → IsSmooth answers p
      → p ≢ 0
      → (f' : Faulting A M T X) × (lost : IsLost ls f f') × (do_swap_page kernel m continued reads
            settings do_wp_page rounds page_cluster answers f lost.entry
          ≡ some (f', 0))
  add_to_swap-IsLost do_wp_page rounds page_cluster h ls page avcs preload p a j answers f fit v w i
        unmarked e t free back no_device smooth n =
      let pooled =
        add_to_swap-Pooled verbs kernel settings h ls page avcs preload p a j f.guest.host fit v w i
          unmarked e t free back in
      let is_9 : swapops.swp_type pooled.entry ≡ 9 =
        (==_iff _ _).0 (local-is_comex swapops pooled.entry pooled.page_no pooled.place) in
      let outside : IsOutside swapops m continued f.guest.host.devices pooled.entry = record {
        type = rw is_9 (comex_9);
        no_device = rw is_9 no_device;
      } in
      let (f', ran, pte, left) =
        do_swap_page-Left kernel m continued reads settings do_wp_page rounds page_cluster answers f
          pooled.entry p smooth n pooled.consistent pooled.here outside in
      (
        f',
        record {
          page_no = pooled.page_no;
          entry = pooled.entry;
          place = pooled.place;
          was_free = pooled.was_free;
          taken =
              subst (Taken (sizes.total_pages) ls 0 pooled.page_no) (sym left.buddy) pooled.taken;
          left = left;
        },
        ran,
      )
