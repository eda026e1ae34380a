-- ===== src/FreeGroup.antt =====
-- The free pages that another node has lent: COMEX_page_receive and COMEX_freelist_getpage of
-- `Kernel Modification/comex_remote.h`. The list is the sequence of its entries. A number of pages
-- is a number with no wrap-around.
pub mod Fifo
mod Tests
use comex.Base.{
  ℕ, zero, suc, ◌+◌, ◌-◌, ◌^◌, Bool, true, false, List, [], ◌∷◌, ◌++◌, Option, none, some, ltb, leb,
  if◌then◌else◌,
}
use comex.Base.Int.{ℤ, pos, negsuc, ◌+ℤ◌, ◌-ℤ◌, ltb_ℤ}

-- free_group_t: the pages from `page_start` to `page_end`, both included.
pub record FreeRun : Type 0 where
  pub page_start : ℕ
  pub page_end : ℕ

-- COMEX_R_free_group_t. `locked`: the caller left with mutex_FG held.
pub record FreeGroup : Type 0 where
  pub total_page : ℤ
  pub back_off : ℕ
  pub locked : Bool
  pub free_group : List FreeRun

-- The first half of COMEX_page_receive: the entry is put at the end.
pub add_run : FreeGroup → (page_no group_size : ℕ) → FreeGroup
add_run g page_no group_size =
    let group_ptr : FreeRun = record {
      page_start = page_no;
      page_end = page_no + 2 ^ group_size - 1;
    } in
    record g {
      total_page = g.total_page +ℤ pos (2 ^ group_size);
      back_off = 0;
      free_group = g.free_group ++ group_ptr ∷ [];
    }

-- The second half: a small reply, or none, makes the node wait before it asks again.
pub slow_down : (refill : ℕ) → FreeGroup → ℤ → (group_size : ℕ) → FreeGroup
slow_down refill g page_no group_size =
    let waits = record g { back_off = 100000 } in
    if leb (group_size + 2) refill then waits else if ltb_ℤ page_no (pos 0) then waits else g

-- COMEX_page_receive, called with the mutex free. `memory`: kzalloc finds memory. `refill` is
-- COMEX_refill.
pub page_receive : (refill : ℕ) (memory : Bool) → FreeGroup → ℤ → (group_size : ℕ) → FreeGroup
page_receive refill memory g (pos page_no) group_size =
    if memory
    then slow_down refill (add_run g page_no group_size) (pos page_no) group_size
    else record g { locked = true }
page_receive refill memory g (negsuc k) group_size = slow_down refill g (negsuc k) group_size

-- The rest of the list once the first page of its first entry is taken.
pub advance : FreeRun → List FreeRun → List FreeRun
advance r rs =
    let r' = record r { page_start = r.page_start + 1 } in
    if ltb r'.page_end r'.page_start then rs else r' ∷ rs

-- COMEX_freelist_getpage. `none`: the list is empty, and the code goes on with the memory in front
-- of the list's head, since list_entry of a head that points to itself is not NULL.
pub freelist_getpage : FreeGroup → Option (ℕ × FreeGroup)
freelist_getpage g = elim g.free_group [
  | [] ↦ none
  | r ∷ rs ↦
      some
        (r.page_start, record g { free_group = advance r rs; total_page = g.total_page -ℤ pos 1 })
]
