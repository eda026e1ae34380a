-- ===== src/Local.antt =====
-- Pages that are swapped out to the node's own pool: COMEX_move_to_COMEX and COMEX_read_from_local of
-- `Kernel Modification/comex_lib.h`. The node's shared memory holds a page at each byte offset that
-- is one's start; the contents of a page are any type.
pub mod Store
mod Tests
use comex.Base.{ℕ, Bool, true, false, Option, none, some, leb, if◌then◌else◌, update}
use comex.Base.Int.{ℤ, pos, negsuc}
use comex.Buddy.{Buddy, rmqueue_smallest}
use comex.Layout.{Sizes, local_page_offset}

module _ {ℓ} {A : Type ℓ} (z : Sizes) where
  -- COMEX_move_to_COMEX: the page number, if it returns 1
  pub move_to_comex : Buddy → (ℕ → A) → A → Buddy × (ℕ → A) × Option ℕ
  move_to_comex b memory old_page =
      let (b', page_no) = rmqueue_smallest b 0 in
      elim page_no [
        | negsuc k ↦ (b', memory, none)
        | pos p ↦
            if leb (z.total_pages) p
            then (b', memory, none)
            else (b', update memory (local_page_offset z p) old_page, some p)
      ]

  -- COMEX_read_from_local: what it copies. `none`: the number is wrong and nothing is copied.
  pub read_from_local : (ℕ → A) → ℤ → Option A
  read_from_local memory (negsuc k) = none
  read_from_local memory (pos p) =
      if leb (z.total_pages) p then none else some (memory (local_page_offset z p))
