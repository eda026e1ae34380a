-- ===== src/Swap/Fault/Refault.antt =====
-- A fault on a page that is still in the swap cache.
use comex.Base.{
  ℕ, ◌≡◌, ◌≢◌, List, refl, sym, ap, ◌∙◌, Bool, true, false, none, some, ◌==◌, ==_iff, arith,
}
use comex.ReadIn.{Reads}
use comex.Swap.{
  SwapCache, lookup_swap_cache, page_cache_release, delete_from_swap_cache, delete_from_cache,
}
use comex.Swap.Consistent.{find, IsConsistent, delete_from_cache-IsConsistent}
use comex.Swap.Devices.{SwapMap, Devices}
use comex.Swap.Devices.Outside.{
  IsOutside, swap_free-IsOutside, swapcache_free-IsOutside, page_swapcount-IsOutside,
}
use mathlib.Core.Path.{subst}
use comex.Swap.Flags.{update-IsConsistent, looked_up}
use comex.Swap.Fault.{
  present, ordinary, Answers, Faulting, with_swap, drop_swap, swapcount, try_to_free_swap, map_page,
  with_page, do_swap_page,
}
use comex.Swap.In.{Guest, Round}
use comex.Swap.Out.{Kernel, Settings}

-- A read fault on which nothing goes wrong
pub record IsSmooth (a : Answers) (page : ℕ) : Type 0 where
  pub unmap_same : a.unmap_same ≡ true
  pub kind : a.kind ≡ ordinary
  pub is_poisoned : a.is_poisoned ≡ false
  pub locked : a.locked ≡ true
  pub no_copy : a.ksm_copy page ≡ page
  pub charged : a.charge_fails ≡ false
  pub pte_same : a.pte_same ≡ true
  pub uptodate : a.uptodate ≡ true
  pub writeback : a.writeback ≡ false
  pub suspended : a.suspended ≡ false
  pub reads : a.write ≡ false

module _ {ℓ κ μ ν} {A : Type ℓ} {M : Type κ} {T : Type μ} {X : Type ν}
    (kernel : Kernel T (Devices X)) (m : SwapMap)
    (continued : X → (type offset count : ℕ) → X × Bool) where
  open kernel use {radix, space, swapops}

  -- The page has left the swap cache, and nothing is given back.
  pub record Left (g g' : Guest A M T (Devices X)) (entry : ℕ) : Type (ℓ ⊔ κ ⊔ μ ⊔ ν) where
    pub gone : find radix space g'.host.cache.tree entry ≡ none
    pub others :
        (e : ℕ)
        → e ≢ entry
        → find radix space g'.host.cache.tree e ≡ find radix space g.host.cache.tree e
    pub consistent : IsConsistent radix space g'.host.cache
    pub buddy : g'.host.buddy ≡ g.host.buddy
    pub out : g'.host.out ≡ g.host.out
    pub devices : g'.host.devices ≡ g.host.devices
    pub batches : g'.batches ≡ g.batches
    pub messages : g'.messages ≡ g.messages

  drop_swap-Left :
      (g : Guest A M T (Devices X)) (page : ℕ)
      → IsConsistent radix space g.host.cache
      → (g.host.cache.page page).swap_cache ≡ true
      → IsOutside swapops m continued g.host.devices (g.host.cache.page page).private
      → Left g (drop_swap kernel m continued g page) (g.host.cache.page page).private
  unfolding drop_swap with_swap delete_from_swap_cache page_cache_release
  drop_swap-Left g page i is o =
      let c = g.host.cache in
      let after = delete_from_cache-IsConsistent radix space c page i is in
      let once =
        update-IsConsistent radix space (delete_from_cache radix space c page) page _ refl refl
          after.0 in
      record {
        gone = after.1;
        others = after.2;
        consistent = update-IsConsistent radix space _ page _ refl refl once;
        buddy = refl;
        out = refl;
        devices = swapcache_free-IsOutside swapops m continued g.host.devices _ o;
        batches = refl;
        messages = refl;
      }

  pub try_to_free_swap-Left :
      (a : Answers) (g : Guest A M T (Devices X)) (page : ℕ)
      → a.writeback ≡ false
      → a.suspended ≡ false
      → IsConsistent radix space g.host.cache
      → (g.host.cache.page page).swap_cache ≡ true
      → IsOutside swapops m continued g.host.devices (g.host.cache.page page).private
      → Left g (try_to_free_swap kernel m continued a g page) (g.host.cache.page page).private
  unfolding swapcount try_to_free_swap
  try_to_free_swap-Left a g page w s i is o =
      let none_left = page_swapcount-IsOutside swapops m continued g.host.devices _ o in
      rw (is, w, s, none_left, swapcount, try_to_free_swap) (drop_swap-Left g page i is o)

  -- A read fault on a page in the swap cache, from `inc_mm_counter_fast` on
  map_page-Left :
      (do_wp_page : Faulting A M T X → Faulting A M T X × ℕ) (a : Answers) (f : Faulting A M T X)
      (page ret : ℕ)
      → IsSmooth a page
      → IsConsistent radix space f.guest.host.cache
      → (f.guest.host.cache.page page).swap_cache ≡ true
      → IsOutside swapops m continued f.guest.host.devices (f.guest.host.cache.page page).private
      → let entry = (f.guest.host.cache.page page).private in
        let out = map_page kernel m continued do_wp_page a f entry page page ret in
        (out.1 ≡ ret) × ((out.0).pte ≡ present page false false) × Left f.guest (out.0).guest entry
  unfolding map_page with_swap try_to_free_swap
  map_page-Left do_wp_page a f page ret s i is o =
      let same : (page == page) ≡ true = (==_iff page page).1 refl in
      let kept = swap_free-IsOutside swapops m continued f.guest.host.devices _ o in
      rw (s.reads, same, kept)
        (refl, refl, try_to_free_swap-Left a f.guest page s.writeback s.suspended i is o)

  with_page_smooth :
      (do_wp_page : Faulting A M T X → Faulting A M T X × ℕ) (a : Answers) (f : Faulting A M T X)
      (page ret : ℕ)
      → IsSmooth a page
      → page ≢ 0
      → (f.guest.host.cache.page page).swap_cache ≡ true
      → let entry = (f.guest.host.cache.page page).private in
        with_page kernel m continued do_wp_page a f entry page ret
        ≡ map_page kernel m continued do_wp_page a f entry page page ret
  unfolding with_page
  with_page_smooth do_wp_page a f page ret s n is =
      let same = (==_iff _ _).1 (refl {a = (f.guest.host.cache.page page).private}) in
      let some_page : (page == 0) ≡ false = ground arith in
      simp (s.locked, is, same, s.no_copy, some_page, s.charged, s.pte_same, s.uptodate)

  with_page-Left :
      (do_wp_page : Faulting A M T X → Faulting A M T X × ℕ) (a : Answers) (f : Faulting A M T X)
      (entry page ret : ℕ)
      → IsSmooth a page
      → page ≢ 0
      → IsConsistent radix space f.guest.host.cache
      → (f.guest.host.cache.page page).swap_cache ≡ true
      → (f.guest.host.cache.page page).private ≡ entry
      → IsOutside swapops m continued f.guest.host.devices entry
      → let out = with_page kernel m continued do_wp_page a f entry page ret in
        (out.1 ≡ ret) × ((out.0).pte ≡ present page false false) × Left f.guest (out.0).guest entry
  with_page-Left do_wp_page a f entry page ret s n i is key o = rw⁻¹ key (
      rw (with_page_smooth do_wp_page a f page ret s n is) (
        map_page-Left do_wp_page a f page ret s i is
          (subst (λ e. IsOutside swapops m continued f.guest.host.devices e) (sym key) o)))

  from_lookup :
      (g : Guest A M T (Devices X)) (c : SwapCache T) (g' : Guest A M T (Devices X)) (entry : ℕ)
      → c.tree ≡ g.host.cache.tree
      → Left (with_swap kernel m continued g (c, g.host.devices)) g' entry
      → Left g g' entry
  unfolding with_swap
  from_lookup g c g' entry same l = record {
    gone = l.gone;
    others = λ e n. l.others e n ∙ ap (λ t. find radix space t e) same;
    consistent = l.consistent;
    buddy = l.buddy;
    out = l.out;
    devices = l.devices;
    batches = l.batches;
    messages = l.messages;
  }

  -- If a process reads a page that is still in the swap cache under an entry of COMEX, no other
  -- device has the entry's type, the page is not being written back and nothing goes wrong, then
  -- do_swap_page returns 0 and maps the page; the page has left the swap cache, no other lookup has
  -- changed, and neither the pool nor the pages of other nodes have got the place of its contents
  -- back: the pool, the groups of lent pages, the arrays of pages to give back and the messages are
  -- as before.
  pub do_swap_page-Left :
      (reads : Reads A) (settings : Settings) (do_wp_page : Faulting A M T X → Faulting A M T X × ℕ)
      (rounds : ℕ → List Round) (page_cluster : ℕ) (a : Answers) (f : Faulting A M T X)
      (entry page : ℕ)
      → IsSmooth a page
      → page ≢ 0
      → IsConsistent radix space f.guest.host.cache
      → find radix space f.guest.host.cache.tree entry ≡ some page
      → IsOutside swapops m continued f.guest.host.devices entry
      → (f' : Faulting A M T X) × (do_swap_page kernel m continued reads settings do_wp_page rounds
            page_cluster a f entry
          ≡ some (f', 0))
        × (f'.pte ≡ present page false false)
        × Left f.guest f'.guest entry
  unfolding do_swap_page with_swap
  do_swap_page-Left reads settings do_wp_page rounds page_cluster a f entry page s n i h o =
      let c = f.guest.host.cache in
      let (same, i', is, key, tree) = looked_up radix space c entry page i h in
      let c' = (lookup_swap_cache radix space c entry).0 in
      let found = record f {
        guest = with_swap kernel m continued f.guest (c', f.guest.host.devices);
      } in
      let after = with_page-Left do_wp_page a found entry page 0 s n i' is key o in
      let out = with_page kernel m continued do_wp_page a found entry page 0 in
      (
        out.0,
        simp (s.unmap_same, s.kind, same, s.is_poisoned) (ap (λ r. some (out.0, r)) after.0),
        after.1,
        from_lookup f.guest c' _ entry tree after.2,
      )
