-- ===== src/Swap.antt =====
-- The swap cache and the swap entries of pages in the pool: `Kernel Modification/swap_state.c`.
-- Entries and radix trees belong to the kernel and are arguments with the laws that the code relies
-- on; so are the other swap devices, but for Devices and what builds on it. An operation under a lock is one step.
pub mod Consistent
pub mod Devices
pub mod Flags
pub mod Out
pub mod Fault
pub mod Free
pub mod In
pub mod Pageout
mod Tests
use comex.Base.{
  ℕ, suc, ◌==◌, ◌+◌, ◌*◌, ◌/◌, ◌%◌, ◌^◌, ◌<◌, ◌≡◌, ◌≢◌, Bool, true, false, Option, none, some,
  if◌then◌else◌, update,
}
use comex.Base.Int.{ℤ, pos, ◌+ℤ◌, ◌-ℤ◌, ◌==ℤ◌}

-- swp_entry, swp_type and swp_offset of the kernel: an entry has a type and an offset up to a bound.
pub record Swapops : Type 0 where
  pub swp_entry : (type offset : ℕ) → ℕ
  pub swp_type : ℕ → ℕ
  pub swp_offset : ℕ → ℕ
  pub offset_bound : ℕ
  pub swp_type_lem : (t o : ℕ) → t < 32 → o < offset_bound → swp_type (swp_entry t o) ≡ t
  pub swp_offset_lem : (t o : ℕ) → t < 32 → o < offset_bound → swp_offset (swp_entry t o) ≡ o

-- The entries that add_to_swap makes: type 9 for a page of the node's own pool, type 8 for a page of
-- another node.
pub local_entry : Swapops → (page_no : ℕ) → ℕ
local_entry ops page_no = ops.swp_entry 9 page_no

pub remote_entry : Swapops → (node_id page_no : ℕ) → ℕ
remote_entry ops node_id page_no = ops.swp_entry 8 (node_id + page_no * 2 ^ 10)

-- Where the contents for an entry are, as read_swap_cache_async and zap_pte_range read it
pub data Place : Type 0 where
  local : (page_no : ℕ) → Place
  remote : (node_id page_no : ℕ) → Place
  disk : Place

unfoldable pub place_of : Swapops → (entry : ℕ) → Place
place_of ops entry =
    let offset = ops.swp_offset entry in
    if ops.swp_type entry == 8
    then remote (offset % 1024) (offset / 2 ^ 10)
    else if ops.swp_type entry == 9
    then local offset
    else disk

-- A radix tree from entries to pages. An insertion fails only for want of memory or for a key that
-- is there, and changes nothing then.
pub record RadixTree {ℓ} (T : Type ℓ) : Type ℓ where
  pub lookup : T → ℕ → Option ℕ
  pub insert : T → (key page : ℕ) → T × ℤ
  pub delete : T → (key : ℕ) → T
  pub insert_here :
      (t : T) (k p : ℕ) → (insert t k p).1 ≡ pos 0 → lookup (insert t k p).0 k ≡ some p
  pub insert_new : (t : T) (k p : ℕ) → (insert t k p).1 ≡ pos 0 → lookup t k ≡ none
  pub insert_elsewhere : (t : T) (k p j : ℕ) → j ≢ k → lookup (insert t k p).0 j ≡ lookup t j
  pub insert_fails : (t : T) (k p : ℕ) → (insert t k p).1 ≢ pos 0 → (insert t k p).0 ≡ t
  pub delete_here : (t : T) (k : ℕ) → lookup (delete t k) k ≡ none
  pub delete_elsewhere : (t : T) (k j : ℕ) → j ≢ k → lookup (delete t k) j ≡ lookup t j

-- The parts of struct page that the swap cache changes
pub record SwapPage : Type 0 where
  pub count : ℤ
  pub swap_cache : Bool
  pub private : ℕ
  pub dirty : Bool

-- The pages, and for each address space its tree and its number of pages, with the counts of
-- swap_cache_info
pub record SwapCache {ℓ} (T : Type ℓ) : Type ℓ where
  pub page : ℕ → SwapPage
  pub tree : ℕ → T
  pub nrpages : ℕ → ℤ
  pub add_total : ℕ
  pub del_total : ℕ
  pub find_success : ℕ
  pub find_total : ℕ

-- `space` is swap_address_space.
module _ {ℓ} {T : Type ℓ} (radix : RadixTree T) (space : ℕ → ℕ) where
  -- __add_to_swap_cache: what it does before it knows whether the insertion succeeds, what it does if
  -- it succeeds, and if it fails
  pub marked : SwapPage → (entry : ℕ) → SwapPage
  marked p entry = record p { count = p.count +ℤ pos 1; swap_cache = true; private = entry }

  pub unmarked : SwapPage → SwapPage
  unmarked p = record p { count = p.count -ℤ pos 1; swap_cache = false; private = 0 }

  unfoldable pub add_to_cache : SwapCache T → (page entry : ℕ) → SwapCache T × ℤ
  add_to_cache c page entry =
      let s = space entry in
      let (tree', error) = radix.insert (c.tree s) entry page in
      let page' = marked (c.page page) entry in
      if error ==ℤ pos 0
      then (
        record c {
          page = update c.page page page';
          tree = update c.tree s tree';
          nrpages = update c.nrpages s (c.nrpages s +ℤ pos 1);
          add_total = suc c.add_total;
        },
        error,
      )
      else (
        record c { page = update c.page page (unmarked page'); tree = update c.tree s tree' },
        error,
      )

  -- add_to_swap_cache: `preload` is what radix_tree_preload returns.
  unfoldable pub add_to_swap_cache :
      (preload : ℤ) → SwapCache T → (page entry : ℕ) → SwapCache T × ℤ
  add_to_swap_cache preload c page entry =
      if preload ==ℤ pos 0 then add_to_cache c page entry else (c, preload)

  -- __delete_from_swap_cache
  pub delete_from_cache : SwapCache T → (page : ℕ) → SwapCache T
  delete_from_cache c page =
      let p = c.page page in
      let s = space p.private in
      record c {
        tree = update c.tree s (radix.delete (c.tree s) p.private);
        page = update c.page page (record p { private = 0; swap_cache = false });
        nrpages = update c.nrpages s (c.nrpages s -ℤ pos 1);
        del_total = suc c.del_total;
      }

  -- page_cache_release, as far as the count goes
  pub page_cache_release : SwapCache T → (page : ℕ) → SwapCache T
  page_cache_release c page =
      let p = c.page page in
      record c { page = update c.page page (record p { count = p.count -ℤ pos 1 }) }

  -- delete_from_swap_cache. `free` is swapcache_free on the state of the swap devices.
  pub delete_from_swap_cache {κ} :
      {K : Type κ} (free : K → (entry : ℕ) → K) → SwapCache T × K → (page : ℕ) → SwapCache T × K
  delete_from_swap_cache free (c, k) page =
      let entry = (c.page page).private in
      (page_cache_release (delete_from_cache c page) page, free k entry)

  -- lookup_swap_cache; find_get_page takes a reference.
  pub lookup_swap_cache : SwapCache T → (entry : ℕ) → SwapCache T × Option ℕ
  lookup_swap_cache c entry = elim (radix.lookup (c.tree (space entry)) entry) [
    | none ↦ (record c { find_total = suc c.find_total }, none)
    | some p ↦ (
      record c {
        find_total = suc c.find_total;
        find_success = suc c.find_success;
        page = update c.page p (record (c.page p) { count = (c.page p).count +ℤ pos 1 });
      },
      some p,
    )
  ]
