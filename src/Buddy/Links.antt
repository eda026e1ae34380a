-- ===== src/Buddy/Links.antt =====
-- The circular doubly linked lists of `Kernel Modification/comex_buddy.h`.
-- A list head is an address. An address below `max_order` is the `free_list` of that entry of
-- COMEX_free_area, and `max_order + i` is the `lru` of COMEX_Buddy_page[i].
pub mod Ring
pub mod Ops
pub mod Del
use comex.Base.{ℕ, ◌+◌, ◌-◌, Bool, ◌==◌, update}

-- COMEX_MAX_ORDER
abbrev pub max_order : ℕ
max_order = 11

abbrev pub Ptr : Type 0
Ptr = ℕ

-- `struct COMEX_list_head` at every address
pub record Heads : Type 0 where
  pub next : Ptr → Ptr
  pub prev : Ptr → Ptr

abbrev pub free_list : ℕ → Ptr
free_list order = order

abbrev pub lru : ℕ → Ptr
lru page = max_order + page

-- COMEX_list_entry(ptr, COMEX_page, lru)
abbrev pub list_entry : Ptr → ℕ
list_entry p = p - max_order

abbrev pub set_next : Heads → Ptr → Ptr → Heads
set_next h p q = record h { next = update h.next p q }

abbrev pub set_prev : Heads → Ptr → Ptr → Heads
set_prev h p q = record h { prev = update h.prev p q }

unfoldable pub init_list : Heads → Ptr → Heads
init_list h list = set_prev (set_next h list list) list list

unfoldable pub list_empty : Heads → Ptr → Bool
list_empty h head = h.next head == head

-- COMEX__list_add: the four writes, in order
abbrev pub list_insert : Heads → Ptr → Ptr → Ptr → Heads
list_insert h new before after =
    set_next (set_prev (set_next (set_prev h after new) new after) new before) before new

unfoldable pub list_add : Heads → Ptr → Ptr → Heads
list_add h new head = list_insert h new head (h.next head)

unfoldable pub list_add_tail : Heads → Ptr → Ptr → Heads
list_add_tail h new head = list_insert h new (h.prev head) head

-- COMEX__list_del
abbrev pub list_join : Heads → Ptr → Ptr → Heads
list_join h before after = set_next (set_prev h after before) before after

unfoldable pub list_del : Heads → Ptr → Heads
list_del h entry =
    let h' = list_join h (h.prev entry) (h.next entry) in
    set_prev (set_next h' entry entry) entry entry
