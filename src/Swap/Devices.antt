-- ===== src/Swap/Devices.antt =====
-- The map of each swap device: swap_info_get, swap_entry_free, __swap_duplicate and their callers in
-- `Kernel Modification/swapfile.c`. An operation under a lock is one step.
pub mod Counts
pub mod Outside
use comex.Base.Errno.{enoent, enomem, eexist, einval}
use comex.Base.{
  ℕ, suc, ◌+◌, ◌-◌, ◌/◌, ◌%◌, ◌^◌, Bool, true, false, ◌||◌, ◌&&◌, not, List, [], ◌∷◌, Option, none,
  some, ◌==◌, ltb, leb, if◌then◌else◌, update,
}
use comex.Base.Int.{ℤ, pos, negsuc, ◌+ℤ◌, ◌==ℤ◌, ltb_ℤ, leb_ℤ}
use comex.Swap.{Swapops}

-- The numbers of linux/swap.h: the bits of SWAP_HAS_CACHE and of COUNT_CONTINUED, SWAP_MAP_MAX and
-- SWAP_MAP_SHMEM
pub record SwapMap : Type 0 where
  pub cache_bit : ℕ
  pub continued_bit : ℕ
  pub map_max : ℕ
  pub map_shmem : ℕ

-- `x & 2 ^ b`, as a test, `x & ~2 ^ b` and `x | 2 ^ b`
unfoldable pub has_bit : (b x : ℕ) → Bool
has_bit b x = x / 2 ^ b % 2 == 1

unfoldable pub clear_bit : (b x : ℕ) → ℕ
clear_bit b x = if has_bit b x then x - 2 ^ b else x

unfoldable pub set_bit : (b x : ℕ) → ℕ
set_bit b x = if has_bit b x then x else x + 2 ^ b

-- struct swap_info_struct; `used` is SWP_USED.
pub record SwapInfo : Type 0 where
  pub used : Bool
  pub prio : ℤ
  pub max : ℕ
  pub swap_map : ℕ → ℕ
  pub lowest_bit : ℕ
  pub highest_bit : ℕ
  pub inuse_pages : ℕ

-- swap_info, with `none` for NULL, and the counts beside it; `highest_priority` is `none` for -1.
-- `freed` are the slots that the frontend and the disk were told of, by type and offset; `more` are
-- the pages that continue the counts.
pub record Devices {ℓ} (X : Type ℓ) : Type ℓ where
  pub swap_info : ℕ → Option SwapInfo
  pub nr_swapfiles : ℕ
  pub nr_swap_pages : ℤ
  pub highest_priority : Option ℕ
  pub freed : List (ℕ × ℕ)
  pub more : X

-- The types of COMEX's entries
unfoldable pub is_comex : (type : ℕ) → Bool
is_comex type = type == 8 || type == 9

-- The priority of a device; swap_info of a device that slots are freed of is not NULL.
abbrev pub prio_of : Option SwapInfo → ℤ
prio_of none = negsuc 0
prio_of (some p) = p.prio

-- `continued` is swap_count_continued, on the pages that continue a count.
module _ {ℓ} {X : Type ℓ} (ops : Swapops) (m : SwapMap)
    (continued : X → (type offset count : ℕ) → X × Bool) where
  open ops use {swp_type, swp_offset}
  open m use {cache_bit, continued_bit, map_max, map_shmem}

  -- The device that swap_info_get returns, with `none` for NULL
  unfoldable pub swap_info_get : Devices X → (entry : ℕ) → Option SwapInfo
  swap_info_get d entry =
      let type = swp_type entry in
      let offset = swp_offset entry in
      if entry == 0
      then none
      else if is_comex type
      then d.swap_info type
      else if leb d.nr_swapfiles type
      then none
      else elim (d.swap_info type) [
        | none ↦ none
        | some p ↦
            if not p.used
            then none
            else if leb p.max offset
            then none
            else if p.swap_map offset == 0
            then none
            else some p
      ]

  -- set_highest_priority_index, when no other device is freed meanwhile
  unfoldable pub set_highest_priority_index : Devices X → (type : ℕ) → Devices X
  set_highest_priority_index d type = elim d.highest_priority [
    | none ↦ record d { highest_priority = some type }
    | some old ↦
        if leb_ℤ (prio_of (d.swap_info type)) (prio_of (d.swap_info old))
        then d
        else record d { highest_priority = some type }
  ]

  -- swap_entry_free: the count after a reference is dropped; `usage` is 1 or SWAP_HAS_CACHE.
  unfoldable pub dropped : X → (type offset count usage : ℕ) → X × ℕ
  dropped x type offset count usage =
      let (x', more) = continued x type offset count in
      let bare = clear_bit continued_bit count in
      if usage == 2 ^ cache_bit
      then (x, count)
      else if count == map_shmem
      then (x, 0)
      else if leb bare map_max
      then if count == 2 ^ continued_bit
        then (x', if more then set_bit continued_bit map_max else map_max)
        else (x, count - 1)
      else (x, count)

  unfoldable pub with_cache : Bool → (count : ℕ) → ℕ
  with_cache has_cache count = if has_cache then set_bit cache_bit count else count

  -- The slot is free.
  unfoldable pub slot_freed : Devices X → SwapInfo → (type offset : ℕ) → Devices X
  slot_freed d p type offset =
      let p' = record p {
        lowest_bit = if ltb offset p.lowest_bit then offset else p.lowest_bit;
        highest_bit = if ltb p.highest_bit offset then offset else p.highest_bit;
        inuse_pages = p.inuse_pages - 1;
      } in
      let d' = set_highest_priority_index d type in
      record d' {
        swap_info = update d'.swap_info type (some p');
        nr_swap_pages = d.nr_swap_pages +ℤ pos 1;
        freed = (type, offset) ∷ d.freed;
      }

  unfoldable pub swap_entry_free : Devices X → SwapInfo → (entry usage : ℕ) → Devices X × ℕ
  swap_entry_free d p entry usage =
      let type = swp_type entry in
      let offset = swp_offset entry in
      let ent = p.swap_map offset in
      let has_cache = has_bit cache_bit ent in
      let (x, count) = dropped d.more type offset (clear_bit cache_bit ent) usage in
      let usage' = with_cache (has_cache && not (usage == 2 ^ cache_bit)) count in
      let p' = record p { swap_map = update p.swap_map offset usage' } in
      let d' = record d { swap_info = update d.swap_info type (some p'); more = x } in
      (if usage' == 0 then slot_freed d' p' type offset else d', usage')

  pub swap_free : Devices X → (entry : ℕ) → Devices X
  swap_free d entry = elim (swap_info_get d entry) [
    | none ↦ d
    | some p ↦ (swap_entry_free d p entry 1).0
  ]

  pub swapcache_free : Devices X → (entry : ℕ) → Devices X
  swapcache_free d entry = elim (swap_info_get d entry) [
    | none ↦ d
    | some p ↦ (swap_entry_free d p entry (2 ^ cache_bit)).0
  ]

  -- page_swapcount, of a page that carries the entry
  pub page_swapcount : Devices X → (entry : ℕ) → ℕ
  page_swapcount d entry = elim (swap_info_get d entry) [
    | none ↦ 0
    | some p ↦ clear_bit cache_bit (p.swap_map (swp_offset entry))
  ]

  -- __swap_duplicate for the cache: the new byte and the error
  unfoldable pub take_cache : (has_cache : Bool) (count : ℕ) → ℕ × ℤ
  take_cache has_cache count =
      if not has_cache && not (count == 0)
      then (with_cache true count, pos 0)
      else if has_cache
      then (with_cache true count, eexist)
      else (count, enoent)

  -- __swap_duplicate for `usage` more references
  unfoldable pub take_more : X → (type offset : ℕ) (has_cache : Bool) (count usage : ℕ) → X × ℕ × ℤ
  take_more x type offset has_cache count usage =
      let bare = clear_bit continued_bit count in
      let (x', more) = continued x type offset count in
      if not (count == 0) || has_cache
      then if ltb bare map_max
        then (x, with_cache has_cache (count + usage), pos 0)
        else if ltb map_max bare
        then (x, with_cache has_cache count, einval)
        else if more
        then (x', with_cache has_cache (2 ^ continued_bit), pos 0)
        else (x', with_cache has_cache count, enomem)
      else (x, with_cache has_cache count, enoent)

  -- __swap_duplicate; `usage` is SWAP_HAS_CACHE or a number of references.
  unfoldable pub swap_duplicate_once :
      (non_swap_entry : ℕ → Bool) → Devices X → (entry usage : ℕ) → Devices X × ℤ
  swap_duplicate_once non_swap_entry d entry usage =
      let type = swp_type entry in
      let offset = swp_offset entry in
      if non_swap_entry entry
      then (d, einval)
      else if is_comex type
      then (d, pos 0)
      else if leb d.nr_swapfiles type
      then (d, einval)
      else elim (d.swap_info type) [
        | none ↦ (d, einval)
        | some p ↦
            let ent = p.swap_map offset in
            let has_cache = has_bit cache_bit ent in
            let count = clear_bit cache_bit ent in
            let cached = take_cache has_cache count in
            let (x, ent', err) =
              if usage == 2 ^ cache_bit
              then (d.more, cached.0, cached.1)
              else take_more d.more type offset has_cache count usage in
            let p' = record p { swap_map = update p.swap_map offset ent' } in
            if leb p.max offset
            then (d, einval)
            else (record d { swap_info = update d.swap_info type (some p'); more = x }, err)
      ]

  pub swapcache_prepare : (non_swap_entry : ℕ → Bool) → Devices X → (entry : ℕ) → Devices X × ℤ
  swapcache_prepare non_swap_entry d entry =
      swap_duplicate_once non_swap_entry d entry (2 ^ cache_bit)
