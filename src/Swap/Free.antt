-- ===== src/Swap/Free.antt =====
-- Freeing the swap space of pages that are given up: free_swap_cache and free_page_and_swap_cache of
-- `Kernel Modification/swap_state.c`, free_swap_and_cache of `Kernel Modification/swapfile.c`.
use comex.Base.{
  ℕ, ◌^◌, ◌≡◌, refl, Bool, true, false, ◌&&◌, ◌||◌, not, Option, none, some, ◌==◌, if◌then◌else◌,
  update,
}
use comex.Base.Int.{pos, ◌+ℤ◌}
use comex.Swap.Consistent.{IsConsistent}
use comex.Swap.Devices.{SwapMap, Devices, swap_info_get, swap_entry_free}
use comex.Swap.Devices.Outside.{IsOutside, swap_info_get-IsOutside}
use comex.Swap.Fault.{Answers, release, drop_swap, with_swap, try_to_free_swap}
use comex.Swap.Fault.Refault.{Left, try_to_free_swap-Left}
use comex.Swap.In.{Guest}
use comex.Swap.Out.{Kernel}

-- What the kernel says of the page: page_mapped, trylock_page, PageWriteback and vm_swap_full
pub record PageState : Type 0 where
  pub is_mapped : Bool
  pub trylock : Bool
  pub writeback : Bool
  pub swap_full : Bool

module _ {ℓ κ μ ν} {A : Type ℓ} {M : Type κ} {T : Type μ} {X : Type ν}
    (kernel : Kernel T (Devices X)) (m : SwapMap)
    (continued : X → (type offset count : ℕ) → X × Bool) where
  open kernel use {radix, space, swapops}
  open m use {cache_bit}

  unfoldable pub free_swap_cache :
      PageState → Answers → Guest A M T (Devices X) → (page : ℕ) → Guest A M T (Devices X)
  free_swap_cache s a g page =
      if (g.host.cache.page page).swap_cache && not s.is_mapped && s.trylock
      then try_to_free_swap kernel m continued a g page
      else g

  pub free_page_and_swap_cache :
      PageState → Answers → Guest A M T (Devices X) → (page : ℕ) → Guest A M T (Devices X)
  free_page_and_swap_cache s a g page = release kernel m continued (free_swap_cache s a g page) page

  -- free_swap_and_cache from `if (page)` on, for a page that was found and locked
  unfoldable pub free_found :
      PageState → Guest A M T (Devices X) → (page : ℕ) → Guest A M T (Devices X)
  free_found s g page =
      let freed =
        if (g.host.cache.page page).swap_cache
          && not s.writeback
          && (not s.is_mapped || s.swap_full)
        then drop_swap kernel m continued g page
        else g in
      release kernel m continued freed page

  -- find_get_page takes a reference, which is dropped if the page cannot be locked.
  unfoldable pub find_page :
      Guest A M T (Devices X) → (entry : ℕ) → Guest A M T (Devices X) × Option ℕ
  find_page g entry =
      let c = g.host.cache in
      elim (radix.lookup (c.tree (space entry)) entry) [
        | none ↦ (g, none)
        | some p ↦
            let taken = record (c.page p) { count = (c.page p).count +ℤ pos 1 } in
            (
              with_swap kernel m continued g
                  (record c { page = update c.page p taken }, g.host.devices),
              some p,
            )
      ]

  -- free_swap_and_cache, with its result, for an entry that is not one of the kernel's own
  pub free_swap_and_cache :
      PageState → Guest A M T (Devices X) → (entry : ℕ) → Guest A M T (Devices X) × Bool
  free_swap_and_cache s g entry = elim (swap_info_get swapops m continued g.host.devices entry) [
    | none ↦ (g, false)
    | some p ↦
        let (d, usage) = swap_entry_free swapops m continued g.host.devices p entry 1 in
        let dropped = with_swap kernel m continued g (g.host.cache, d) in
        let (g', page) = find_page dropped entry in
        let freed : Guest A M T (Devices X) = elim page [
          | none ↦ g'
          | some q ↦ if s.trylock then free_found s g' q else release kernel m continued g' q
        ] in
        (if usage == 2 ^ cache_bit then freed else dropped, true)
  ]

  -- If no device has the type of an entry of COMEX, free_swap_and_cache does nothing for it and returns
  -- 0: neither the swap cache nor the place of the contents is freed.
  pub free_swap_and_cache-IsOutside :
      (s : PageState) (g : Guest A M T (Devices X)) (entry : ℕ)
      → IsOutside swapops m continued g.host.devices entry
      → free_swap_and_cache s g entry ≡ (g, false)
  unfolding free_swap_and_cache
  free_swap_and_cache-IsOutside s g entry o =
      rw (swap_info_get-IsOutside swapops m continued g.host.devices entry o, free_swap_and_cache)
        refl

  -- If a page that is not mapped and not being written back is freed while it is in the swap cache under
  -- an entry of COMEX, it leaves the swap cache, and the place of its contents is not given back.
  pub free_swap_cache-Left :
      (s : PageState) (a : Answers) (g : Guest A M T (Devices X)) (page : ℕ)
      → s.is_mapped ≡ false
      → s.trylock ≡ true
      → a.writeback ≡ false
      → a.suspended ≡ false
      → IsConsistent radix space g.host.cache
      → (g.host.cache.page page).swap_cache ≡ true
      → IsOutside swapops m continued g.host.devices (g.host.cache.page page).private
      → Left kernel m continued g (free_swap_cache s a g page) (g.host.cache.page page).private
  unfolding free_swap_cache
  free_swap_cache-Left s a g page u l w z i is o =
      simp (is, u, l) (try_to_free_swap-Left kernel m continued a g page w z i is o)
