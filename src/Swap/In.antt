-- ===== src/Swap/In.antt =====
-- Swapping a page in: read_swap_cache_async and swapin_readahead of
-- `Kernel Modification/swap_state.c`, and what zap_pte_range of `Kernel Modification/memory.c` does
-- with the entries of a process that ends.
pub mod Restored
pub mod Endings
pub mod Rounds
use comex.Base.Errno.{enomem, eexist}
use comex.Base.{
  ℕ, zero, suc, ◌+◌, ◌-◌, ◌*◌, ◌%◌, ◌^◌, Bool, true, false, ◌||◌, not, List, [], ◌∷◌, ◌++◌, Option,
  none, some, ◌==◌, if◌then◌else◌, update,
}
use comex.Base.Int.{ℤ, pos, negsuc, ◌-ℤ◌, ◌==ℤ◌}
use comex.Buddy.{free_page}
use comex.FreeBatch.{Slot, free_to_remote}
use comex.Layout.{Sizes}
use comex.Local.{read_from_local}
use comex.Outgoing.{Out}
use comex.ReadIn.{Reads, read_remote_page}
use comex.Swap.{
  Swapops, Place, local, remote, disk, place_of, RadixTree, SwapPage, SwapCache, add_to_cache,
  page_cache_release,
}
use comex.Swap.Out.{Host, Kernel, Settings}
use comex.WriteOut.{read_from_buffer}

-- A host with its arrays of pages to give back, the PAGE_FREE messages that it has sent, by node, and
-- the counts of pages that came in
pub record Guest {ℓ κ μ ν} (A : Type ℓ) (M : Type κ) (T : Type μ) (K : Type ν)
    : Type (ℓ ⊔ κ ⊔ μ ⊔ ν) where
  pub host : Host A M T K
  pub batches : ℕ → List Slot
  pub messages : List (ℕ × List Slot)
  pub in_total : ℕ
  pub in_local : ℕ

-- What comes into the new page
pub data Fetched {ℓ} (A : Type ℓ) : Type ℓ where
  copied : A → Fetched A
  nothing_copied from_device : Fetched A

pub fetched {ℓ} : {A : Type ℓ} → Option A → Fetched A
fetched (some a) = copied a
fetched none = nothing_copied

-- What the kernel's calls give in a round of the loop: alloc_page_vma, with 0 for NULL,
-- radix_tree_preload and swapcache_prepare
pub record Round : Type 0 where
  pub alloc : ℕ
  pub preload : ℤ
  pub prepare : ℤ

-- How read_swap_cache_async ends: with a page that was found, with the new page, or with NULL
pub data Ending : Type 0 where
  found fresh : (page : ℕ) → Ending
  null more_rounds : Ending

-- swapin_readahead: the entries that it reads, in order. `(1 << page_cluster) - 1` is the mask.
pub offsets_from : (n start : ℕ) → List ℕ
offsets_from zero start = []
offsets_from (suc n) start = start ∷ offsets_from n (start + 1)

pub readahead_entries : Swapops → (page_cluster entry : ℕ) → List ℕ
readahead_entries ops page_cluster entry =
    let offset = ops.swp_offset entry in
    let type = ops.swp_type entry in
    let size = 2 ^ page_cluster in
    let start = offset - offset % size in
    let cluster = if start == 0 then offsets_from (size - 1) 1 else offsets_from size start in
    if type == 8 || type == 9 then entry ∷ entry ∷ [] else entries_of type cluster ++ (entry ∷ [])
  where
    entries_of : (type : ℕ) → List ℕ → List ℕ
    entries_of type [] = []
    entries_of type (o ∷ os) = ops.swp_entry type o ∷ entries_of type os

module _ {μ ν} {T : Type μ} {K : Type ν} (kernel : Kernel T K) where
  open kernel use {radix, space, swapcache_free}

  -- The end of read_swap_cache_async after `break` or the loop's condition: 0 is no new page.
  pub drop_new_page : SwapCache T → (new_page : ℕ) → SwapCache T
  drop_new_page c new_page = if new_page == 0 then c else page_cache_release radix space c new_page

  -- The loop of read_swap_cache_async, with what the kernel's calls give in each round
  pub read_rounds : List Round → SwapCache T × K → (new_page entry : ℕ) → (SwapCache T × K) × Ending
  read_rounds [] (c, k) new_page entry = ((c, k), more_rounds)
  read_rounds (r ∷ rs) (c, k) new_page entry =
      let page = if new_page == 0 then r.alloc else new_page in
      let (c', err) = add_to_cache radix space c page entry in
      let k' = swapcache_free k entry in
      let again = read_rounds rs (c, k) page entry in
      let retry = read_rounds rs (c', k') page entry in
      elim (radix.lookup (c.tree (space entry)) entry) [
        | some p ↦
            let taken = record (c.page p) { count = (c.page p).count -ℤ negsuc 0 } in
            ((drop_new_page (record c { page = update c.page p taken }) new_page, k), found p)
        | none ↦
            if page == 0
            then ((c, k), null)
            else if not (r.preload ==ℤ pos 0)
            then ((drop_new_page c page, k), null)
            else if r.prepare ==ℤ eexist
            then again
            else if not (r.prepare ==ℤ pos 0)
            then ((drop_new_page c page, k), null)
            else if err ==ℤ pos 0
            then ((c', k), fresh page)
            else if err ==ℤ enomem
            then ((drop_new_page c' page, k'), null)
            else retry
      ]

module _ {ℓ κ μ ν} {A : Type ℓ} {M : Type κ} {T : Type μ} {K : Type ν} (reads : Reads A)
    (kernel : Kernel T K) (settings : Settings) where
  open kernel use {swapops}
  open settings use {sizes, config}

  -- The contents of another node's page: from a write-out slot, the read-in buffers or the node
  pub read_remote : Out A M → (node_id page_no : ℕ) → A × Out A M
  read_remote out node_id page_no =
      elim (read_from_buffer config.total_write_out (out.ring node_id).1 page_no) [
        | some a ↦ (a, out)
        | none ↦
            let (a, cache') =
              read_remote_page config.total_read_in reads out.cache node_id page_no in
            (a, record out { cache = cache' })
      ]

  -- COMEX_free_to_remote with the message that it sends
  pub give_back : Guest A M T K → (node_id page_no : ℕ) → Guest A M T K
  give_back g node_id page_no =
      let (slots, message) = free_to_remote (g.batches node_id) page_no in
      let sent : List (ℕ × List Slot) = elim message [ none ↦ [] | some ss ↦ (node_id, ss) ∷ [] ] in
      record g { batches = update g.batches node_id slots; messages = g.messages ++ sent }

  pub free_local : Guest A M T K → (page_no : ℕ) → Guest A M T K
  free_local g page_no =
      let h = g.host in record g { host = record h { buddy = free_page h.buddy page_no 0 } }

  -- The branches for the type of the entry, once the new page is in the swap cache
  pub fetch : Guest A M T K → (entry : ℕ) → Guest A M T K × Fetched A
  fetch g entry = elim (place_of swapops entry) [
    | remote n p ↦
        let (a, out') = read_remote g.host.out n p in
        let g' = record g { in_total = suc g.in_total; host = record g.host { out = out' } } in
        (give_back g' n p, copied a)
    | local p ↦
        let g' = record g { in_total = suc g.in_total; in_local = suc g.in_local } in
        (free_local g' p, fetched (read_from_local sizes g.host.memory (pos p)))
    | disk ↦ (g, from_device)
  ]

  -- read_swap_cache_async
  pub read_swap_cache :
      List Round → Guest A M T K → (entry : ℕ) → Guest A M T K × Ending × Fetched A
  read_swap_cache rounds g entry =
      let ((c, k), ending) = read_rounds kernel rounds (g.host.cache, g.host.devices) 0 entry in
      let g' = record g { host = record g.host { cache = c; devices = k } } in
      elim ending [
        | fresh p ↦ let (g'', contents) = fetch g' entry in (g'', fresh p, contents)
        | found p ↦ (g', found p, nothing_copied)
        | null ↦ (g', null, nothing_copied)
        | more_rounds ↦ (g', more_rounds, nothing_copied)
      ]

  -- zap_pte_range on a swap entry that is neither a file's nor the caller's to keep: `zap_other` is
  -- what it does for entries of other devices.
  pub zap_entry :
      (zap_other : Guest A M T K → ℕ → Guest A M T K) → Guest A M T K → (entry : ℕ) → Guest A M T K
  zap_entry zap_other g entry = elim (place_of swapops entry) [
    | remote n p ↦ give_back g n p
    | local p ↦ free_local g p
    | disk ↦ zap_other g entry
  ]
