-- ===== src/Swap/Fault.antt =====
-- A process touches a page that is swapped out: do_swap_page of `Kernel Modification/memory.c`,
-- swapin_readahead of `Kernel Modification/swap_state.c`, reuse_swap_page and try_to_free_swap of
-- `Kernel Modification/swapfile.c`. The locks of pages and of the page table, the statistics and the
-- charges to control groups are left out, as far as they do not decide how the code goes on.
pub mod Refault
pub mod Lost
use Prim.Native.Nat.{bit_and, bit_or}
use comex.Base.{
  ℕ, suc, ◌+◌, Bool, true, false, ◌&&◌, ◌||◌, not, List, [], ◌∷◌, Option, none, some, ◌==◌, leb,
  if◌then◌else◌, update,
}
use comex.Base.Int.{ℤ, pos, ◌+ℤ◌, ◌-ℤ◌, ◌==ℤ◌, leb_ℤ}
use comex.ReadIn.{Reads}
use comex.Swap.{SwapCache, SwapPage, lookup_swap_cache, page_cache_release, delete_from_swap_cache}
use comex.Swap.Devices.{SwapMap, Devices, swap_free, swapcache_free, page_swapcount}
use comex.Swap.In.{
  Guest, Round, Ending, found, fresh, null, more_rounds, read_swap_cache, readahead_entries,
}
use comex.Swap.Out.{Kernel, Settings}

-- The page table's entry
pub data Pte : Type 0 where
  swapped : (entry : ℕ) → Pte
  present : (page : ℕ) (writable dirty : Bool) → Pte

-- What a swap entry of the page table stands for
pub data EntryKind : Type 0 where
  migration hwpoison bad ordinary : EntryKind

-- VM_FAULT_OOM, VM_FAULT_SIGBUS, VM_FAULT_MAJOR, VM_FAULT_WRITE, VM_FAULT_HWPOISON, VM_FAULT_RETRY and
-- VM_FAULT_ERROR
abbrev pub oom : ℕ
oom = 1

abbrev pub sigbus : ℕ
sigbus = 2

abbrev pub major : ℕ
major = 4

abbrev pub write_done : ℕ
write_done = 8

abbrev pub poisoned : ℕ
poisoned = 16

abbrev pub retry : ℕ
retry = 1024

abbrev pub fault_error : ℕ
fault_error = 115

-- What the kernel answers on the way: pte_unmap_same, PageHWPoison, lock_page_or_retry,
-- ksm_might_need_to_copy with 0 for NULL, mem_cgroup_try_charge_swapin, pte_same, PageUptodate,
-- PageKsm, page_mapcount, PageWriteback, pm_suspended_storage and maybe_mkwrite; `write` is
-- FAULT_FLAG_WRITE.
pub record Answers : Type 0 where
  pub unmap_same : Bool
  pub kind : EntryKind
  pub is_poisoned : Bool
  pub locked : Bool
  pub ksm_copy : ℕ → ℕ
  pub charge_fails : Bool
  pub pte_same : Bool
  pub uptodate : Bool
  pub is_ksm : Bool
  pub mapcount : ℤ
  pub writeback : Bool
  pub suspended : Bool
  pub may_write : Bool
  pub write : Bool

-- A host, the page table's entry that faults, and the counters of the process
pub record Faulting {ℓ κ μ ν} (A : Type ℓ) (M : Type κ) (T : Type μ) (X : Type ν)
    : Type (ℓ ⊔ κ ⊔ μ ⊔ ν) where
  pub guest : Guest A M T (Devices X)
  pub pte : Pte
  pub anon_pages : ℤ
  pub swap_ents : ℤ

module _ {ℓ κ μ ν} {A : Type ℓ} {M : Type κ} {T : Type μ} {X : Type ν}
    (kernel : Kernel T (Devices X)) (m : SwapMap)
    (continued : X → (type offset count : ℕ) → X × Bool) where
  open kernel use {radix, space, swapops}

  -- The swap cache and the devices after a step
  unfoldable pub with_swap :
      Guest A M T (Devices X) → SwapCache T × Devices X → Guest A M T (Devices X)
  with_swap g (c, d) = record g { host = record g.host { cache = c; devices = d } }

  unfoldable pub release : Guest A M T (Devices X) → (page : ℕ) → Guest A M T (Devices X)
  release g page = with_swap g (page_cache_release radix space g.host.cache page, g.host.devices)

  -- delete_from_swap_cache and SetPageDirty
  unfoldable pub drop_swap : Guest A M T (Devices X) → (page : ℕ) → Guest A M T (Devices X)
  drop_swap g page =
      let (c, d) =
        delete_from_swap_cache radix space (swapcache_free swapops m continued)
          (g.host.cache, g.host.devices) page in
      with_swap g
        (record c { page = update c.page page (record (c.page page) { dirty = true }) }, d)

  unfoldable pub swapcount : Guest A M T (Devices X) → (page : ℕ) → ℕ
  swapcount g page =
      page_swapcount swapops m continued g.host.devices (g.host.cache.page page).private

  unfoldable pub reuse_swap_page :
      Answers → Guest A M T (Devices X) → (page : ℕ) → Guest A M T (Devices X) × Bool
  reuse_swap_page a g page =
      let count = a.mapcount +ℤ pos (swapcount g page) in
      if a.is_ksm
      then (g, false)
      else if leb_ℤ a.mapcount (pos 1) && (g.host.cache.page page).swap_cache
      then (
        if (count ==ℤ pos 1) && not a.writeback then drop_swap g page else g,
        leb_ℤ count (pos 1),
      )
      else (g, leb_ℤ a.mapcount (pos 1))

  unfoldable pub try_to_free_swap :
      Answers → Guest A M T (Devices X) → (page : ℕ) → Guest A M T (Devices X)
  try_to_free_swap a g page =
      if not (g.host.cache.page page).swap_cache
        || a.writeback
        || not (swapcount g page == 0)
        || a.suspended
      then g
      else drop_swap g page

  unfoldable pub drop : Faulting A M T X → (page : ℕ) → Faulting A M T X
  drop f page = record f { guest = release f.guest page }

  -- The labels out_page and out_release, for a page that may be a copy
  unfoldable pub give_up : Faulting A M T X → (page swapcache : ℕ) → Faulting A M T X
  give_up f page swapcache =
      let f' = drop f page in if page == swapcache then f' else drop f' swapcache

  -- do_swap_page from `inc_mm_counter_fast` on. do_wp_page is in the rest of `memory.c`.
  unfoldable pub map_page :
      (do_wp_page : Faulting A M T X → Faulting A M T X × ℕ)
      → Answers
      → Faulting A M T X
      → (entry page swapcache ret : ℕ) → Faulting A M T X × ℕ
  map_page do_wp_page a f entry page swapcache ret =
      let (g, reused) = if a.write then reuse_swap_page a f.guest page else (f.guest, false) in
      let freed = with_swap g (g.host.cache, swap_free swapops m continued g.host.devices entry) in
      let done = try_to_free_swap a freed page in
      let f' : Faulting A M T X = record {
        guest = if page == swapcache then done else release done swapcache;
        pte = present page (reused && a.may_write) reused;
        anon_pages = f.anon_pages +ℤ pos 1;
        swap_ents = f.swap_ents -ℤ pos 1;
      } in
      let ret' = if reused then ret + write_done else ret in
      let (f'', more) = do_wp_page f' in
      let both = bit_or ret' more in
      if a.write && not reused
      then (f'', if bit_and both fault_error == 0 then both else bit_and both fault_error)
      else (f', ret')

  -- do_swap_page once it has the page
  unfoldable pub with_page :
      (do_wp_page : Faulting A M T X → Faulting A M T X × ℕ)
      → Answers
      → Faulting A M T X
      → (entry swapcache ret : ℕ) → Faulting A M T X × ℕ
  with_page do_wp_page a f entry swapcache ret =
      let p = f.guest.host.cache.page swapcache in
      let page = a.ksm_copy swapcache in
      if not a.locked
      then (drop f swapcache, ret + retry)
      else if not p.swap_cache || not (p.private == entry)
      then (drop f swapcache, ret)
      else if page == 0
      then (drop f swapcache, oom)
      else if a.charge_fails
      then (give_up f page swapcache, oom)
      else if not a.pte_same
      then (give_up f page swapcache, ret)
      else if not a.uptodate
      then (give_up f page swapcache, sigbus)
      else map_page do_wp_page a f entry page swapcache ret

  module _ (reads : Reads A) (settings : Settings) where
    -- swapin_readahead: all pages but the last one are only read. `rounds` gives what the kernel's
    -- calls answer, by the number of entries that are left.
    pub read_all :
        (rounds : ℕ → List Round)
        → Guest A M T (Devices X)
        → List ℕ
        → Guest A M T (Devices X) × Ending
    read_all rounds g [] = (g, null)
    read_all rounds g (e ∷ es) =
        let n = count es in
        let (g', ending, contents) = read_swap_cache reads kernel settings (rounds n) g e in
        let kept = read_all rounds g' es in
        let released = λ (p : ℕ). read_all rounds (release g' p) es in
        if n == 0 then (g', ending) else elim ending [
          | found p ↦ released p
          | fresh p ↦ released p
          | null ↦ kept
          | more_rounds ↦ (g', more_rounds)
        ]
      where
        count : List ℕ → ℕ
        count [] = 0
        count (x ∷ xs) = suc (count xs)

    pub swapin_readahead :
        (rounds : ℕ → List Round) (page_cluster : ℕ)
        → Guest A M T (Devices X)
        → (entry : ℕ) → Guest A M T (Devices X) × Ending
    swapin_readahead rounds page_cluster g entry =
        read_all rounds g (readahead_entries swapops page_cluster entry)

    -- do_swap_page. `none`: the given rounds do not suffice.
    pub do_swap_page :
        (do_wp_page : Faulting A M T X → Faulting A M T X × ℕ) (rounds : ℕ → List Round)
        (page_cluster : ℕ)
        → Answers
        → Faulting A M T X
        → (entry : ℕ) → Option (Faulting A M T X × ℕ)
    do_swap_page do_wp_page rounds page_cluster a f entry =
        let (c, page) = lookup_swap_cache radix space f.guest.host.cache entry in
        let f' = record f { guest = with_swap f.guest (c, f.guest.host.devices) } in
        let (g, ending) = swapin_readahead rounds page_cluster f'.guest entry in
        let read = record f' { guest = g } in
        let mapped = λ (p : ℕ). some (with_page do_wp_page a read entry p major) in
        if not a.unmap_same then some (f, 0) else elim a.kind [
          | migration ↦ some (f, 0)
          | hwpoison ↦ some (f, poisoned)
          | bad ↦ some (f, sigbus)
          | ordinary ↦ elim page [
            | some p ↦ some (
                if a.is_poisoned
                then (drop f' p, poisoned)
                else with_page do_wp_page a f' entry p 0)
            | none ↦ elim ending [
              | found p ↦ mapped p
              | fresh p ↦ mapped p
              | null ↦ some (read, if a.pte_same then oom else 0)
              | more_rounds ↦ none
            ]
          ]
        ]
