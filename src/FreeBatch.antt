-- ===== src/FreeBatch.antt =====
-- Pages on their way back to the node that lent them: clean_free_struct and COMEX_free_to_remote of
-- `Kernel Modification/comex_remote.h`, which gather them in COMEX_free_struct, an array of 16
-- entries per node. The state here is the one node's.
pub mod Conserve
mod Tests
use comex.Base.{
  ℕ, zero, suc, ◌+◌, ◌-◌, Bool, true, false, ◌&&◌, List, [], ◌∷◌, Option, none, some, ltb,
  replicate, if◌then◌else◌,
}
use mathlib.Core.Option
use comex.Base.Int.{ℤ, pos, negsuc, minus_one, ◌+ℤ◌, ◌-ℤ◌, ◌==ℤ◌}

-- MAX_FREE
abbrev pub max_free : ℕ
max_free = 16

-- pageNO[i] and count[i] of a free_struct_t
pub record Slot : Type 0 where
  pub page_no : ℤ
  pub count : ℕ

-- clean_free_struct
abbrev pub clean_free_struct : List Slot
clean_free_struct = replicate max_free (record { page_no = minus_one; count = 0 })

-- One round of the loop of COMEX_free_to_remote. `none`: the entry does not take the page.
pub place_in : Slot → (page_no : ℕ) → Option Slot
place_in s page_no =
    if (s.page_no +ℤ pos s.count ==ℤ pos page_no) && ltb s.count 16383
    then some (record s { count = s.count + 1 })
    else if (s.page_no -ℤ pos 1 ==ℤ pos page_no) && ltb s.count 16383
    then some (record { page_no = s.page_no -ℤ pos 1; count = s.count + 1 })
    else if s.page_no ==ℤ minus_one
    then some (record { page_no = pos page_no; count = 1 })
    else none

-- The loop: the first entry that can takes the page.
pub place : List Slot → (page_no : ℕ) → Option (List Slot)
place [] page_no = none
place (s ∷ ss) page_no = elim (place_in s page_no) [
  | some s' ↦ some (s' ∷ ss)
  | none ↦ Option.map (◌∷◌ s) (place ss page_no)
]

-- Entry 0 alone is in use.
abbrev pub first_of : (page_no : ℕ) → List Slot
first_of page_no =
    record { page_no = pos page_no; count = 1 }
    ∷ replicate (max_free - 1) (record { page_no = minus_one; count = 0 })

-- COMEX_free_to_remote: the new entries, and the PAGE_FREE message that is sent, if one is.
pub free_to_remote : List Slot → (page_no : ℕ) → List Slot × Option (List Slot)
free_to_remote ss page_no = elim (place ss page_no) [
  | some ss' ↦ (ss', none)
  | none ↦ (first_of page_no, some ss)
]
