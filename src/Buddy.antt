-- ===== src/Buddy.antt =====
-- The buddy allocator of local pages, `Kernel Modification/comex_buddy.h`.
-- COMEX_free_area and COMEX_Buddy_page are functions of the index. A page is its index, so a
-- pointer `&page[size]` is `page + size`. The functions run under COMEX_buddy_spin, so each is one
-- step. An `int` that the code keeps small is a number or an integer with no wrap-around.
pub mod Links
pub mod Bits
pub mod Blocks
pub mod Shape
pub mod Counters
pub mod Valid
pub mod Alloc
pub mod Release
mod Tests
use Prim.Native.Nat.{bit_and, bit_xor}
use comex.Base.{
  ℕ, zero, suc, ◌+◌, ◌-◌, ◌*◌, ◌/◌, ◌^◌, Bool, true, false, ◌&&◌, not, ◌==◌, ltb, if◌then◌else◌,
  update,
}
use comex.Base.Int.{ℤ, pos, negsuc, minus_one, ◌+ℤ◌, ◌-ℤ◌, ◌==ℤ◌}
use Links.{
  max_order, Heads, free_list, lru, list_entry, list_empty, list_add, list_add_tail, list_del,
}

-- COMEX_page, less its `lru`
pub record Page : Type 0 where
  pub page_no : ℕ
  pub private : ℕ
  pub mapcount : ℤ
  pub cntr : ℤ

-- COMEX_free_area and COMEX_Buddy_page, with the list heads of both
pub record Buddy : Type 0 where
  pub heads : Heads
  pub nr_free : ℕ → ℤ
  pub page : ℕ → Page

-- -128 in `_mapcount` marks the first page of a free block.
abbrev pub buddy_mark : ℤ
buddy_mark = negsuc 127

abbrev pub set_page : Buddy → ℕ → Page → Buddy
set_page b i p = record b { page = update b.page i p }

abbrev pub set_page_order : Buddy → ℕ → ℕ → Buddy
set_page_order b i order =
    set_page b i (record (b.page i) { private = order; mapcount = buddy_mark })

abbrev pub rmv_page_order : Buddy → ℕ → Buddy
rmv_page_order b i = set_page b i (record (b.page i) { private = 0; mapcount = minus_one })

abbrev pub page_is_buddy : Buddy → ℕ → ℕ → Bool
page_is_buddy b i order = (b.page i).mapcount ==ℤ buddy_mark && (b.page i).private == order

abbrev pub set_heads : Buddy → Heads → Buddy
set_heads b h = record b { heads = h }

abbrev pub inc_nr_free : Buddy → ℕ → Buddy
inc_nr_free b order = record b { nr_free = update b.nr_free order (b.nr_free order +ℤ pos 1) }

abbrev pub dec_nr_free : Buddy → ℕ → Buddy
dec_nr_free b order = record b { nr_free = update b.nr_free order (b.nr_free order -ℤ pos 1) }

-- One round of COMEX_expand: page[size] becomes a free block of order `high`.
pub expand_step : Buddy → (page size high area : ℕ) → Buddy
expand_step b page size high area =
    let b₁ = set_heads b (list_add b.heads (lru (page + size)) (free_list area)) in
    let b₂ = inc_nr_free b₁ area in set_page_order b₂ (page + size) high

-- COMEX_expand from the values that `size`, `high` and `area` have at the loop's test
pub expand_loop : Buddy → (page low size high area : ℕ) → Buddy
expand_loop b page low size zero area = b
expand_loop b page low size (suc high) area = elim (ltb low (suc high)) [
  | true ↦
      expand_loop (expand_step b page (size / 2) high (area - 1)) page low (size / 2) high
        (area - 1)
  | false ↦ b
]

pub expand : Buddy → (page low high area : ℕ) → Buddy
expand b page low high area = expand_loop b page low (2 ^ high) high area

-- `cntr += val` on `n` pages from `i` on, up to the first that a double use shows
pub check_ctr_loop : Buddy → (n i : ℕ) → ℤ → Buddy × Bool
check_ctr_loop b zero i val = (b, true)
check_ctr_loop b (suc n) i val =
    let p = b.page i in
    let c = p.cntr +ℤ val in
    let b' = set_page b i (record p { cntr = c }) in
    let rest = check_ctr_loop b' n (i + 1) val in
    if val ==ℤ pos 1 && not (c ==ℤ pos 1)
    then (b', false)
    else if val ==ℤ minus_one && not (c ==ℤ pos 0)
    then (b', false)
    else rest

pub check_ctr : Buddy → (page_no order : ℕ) → ℤ → Buddy × Bool
check_ctr b page_no order val = check_ctr_loop b (2 ^ order) page_no val

-- The end of COMEX_rmqueue_smallest: the block is counted as used, or the call fails.
pub take_counted : Buddy → (page order : ℕ) → Buddy × ℤ
take_counted b page order =
    let (b', done) = check_ctr b (b.page page).page_no order (pos 1) in
    if done then (b', pos (b'.page page).page_no) else (b', minus_one)

-- What COMEX_rmqueue_smallest does with the first entry of the first list that is not empty.
pub take_page : Buddy → (page order current_order : ℕ) → Buddy × ℤ
take_page b page order current_order =
    let b₁ = set_heads b (list_del b.heads (lru page)) in
    let b₂ = rmv_page_order b₁ page in
    let b₃ = dec_nr_free b₂ current_order in
    take_counted (expand b₃ page order current_order current_order) page order

pub take_block : Buddy → (order current_order : ℕ) → Buddy × ℤ
take_block b order current_order =
    take_page b (list_entry (b.heads.next (free_list current_order))) order current_order

-- The search from `current_order` on, with `n` orders left.
pub rmqueue_loop : Buddy → (n order current_order : ℕ) → Buddy × ℤ
rmqueue_loop b zero order current_order = (b, minus_one)
rmqueue_loop b (suc n) order current_order = elim (list_empty b.heads (free_list current_order)) [
  | true ↦ rmqueue_loop b n order (current_order + 1)
  | false ↦ take_block b order current_order
]

-- COMEX_rmqueue_smallest: the page number of a block, or -1
pub rmqueue_smallest : Buddy → ℕ → Buddy × ℤ
rmqueue_smallest b order = rmqueue_loop b (max_order - order) order order

-- page_idx ^ (1 << order), and page_idx & ~(1 << order) on 32 bits
abbrev pub buddy_idx : ℕ → ℕ → ℕ
buddy_idx page_idx order = bit_xor page_idx (2 ^ order)

abbrev pub combined_idx : ℕ → ℕ → ℕ
combined_idx page_idx order = bit_and page_idx (2 ^ 32 - 1 - 2 ^ order)

-- The buddy leaves its list, and neither half stays marked.
pub absorb : Buddy → (page buddy order : ℕ) → Buddy
absorb b page buddy order =
    let b₁ = set_heads b (list_del b.heads (lru buddy)) in
    let b₂ = rmv_page_order b₁ buddy in let b₃ = rmv_page_order b₂ page in dec_nr_free b₃ order

-- The loop of COMEX_free_page. The `n` rounds are those that its test, order < COMEX_MAX_ORDER-1,
-- leaves. The result is the merged block with its order.
pub merge_loop : Buddy → (n page page_idx order : ℕ) → Buddy × ℕ × ℕ
merge_loop b zero page page_idx order = (b, page, order)
merge_loop b (suc n) page page_idx order =
    let buddy = page + buddy_idx page_idx order - page_idx in
    let combined = combined_idx page_idx order in
    elim (page_is_buddy b buddy order) [
      | true ↦
          merge_loop (absorb b page buddy order) n (page + combined - page_idx) combined (order + 1)
      | false ↦ (b, page, order)
    ]

-- The end of COMEX_free_page: the block goes to the end of its list.
pub put_block : Buddy → (page order : ℕ) → Buddy
put_block b page order =
    let b₁ = set_page_order b page order in
    let b₂ = set_heads b₁ (list_add_tail b₁.heads (lru page) (free_list order)) in
    inc_nr_free b₂ order

-- COMEX_free_page once the counters are right
pub free_counted : Buddy → (page_no order : ℕ) → Buddy
free_counted b page_no order =
    let page_idx = bit_and (b.page page_no).page_no (2 ^ max_order - 1) in
    let (b', page, o) = merge_loop b (max_order - 1 - order) page_no page_idx order in
    put_block b' page o

-- COMEX_free_page. If the counters are wrong it returns with those that it has changed so far.
pub free_page : Buddy → (page_no order : ℕ) → Buddy
free_page b page_no order =
    let (b', done) = check_ctr b page_no order minus_one in
    if done then free_counted b' page_no order else b'
