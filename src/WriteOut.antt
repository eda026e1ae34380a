-- ===== src/WriteOut.antt =====
-- The buffers in which pages wait for another node: the write-out part of
-- `Kernel Modification/comex_remote.h`, for one node. The contents of a page are any type, and the
-- RDMA transfer, which the verbs library performs, is an argument with its laws; do_write of
-- `krpingTrimmed/krping.c`, which Transport models, may refuse it or fail.
pub mod Scan
pub mod Flush
pub mod Misdeliver
pub mod View
pub mod Failed
pub mod Plain
mod Tests
use comex.Base.{
  Option, none, some, ℕ, zero, suc, ◌+◌, ◌-◌, ◌%◌, ◌≤◌, ◌<◌, ◌≡◌, Bool, true, false, not, ◌&&◌,
  ◌||◌, ltb, leb, ◌==◌, if◌then◌else◌, update,
}
use comex.Base.Int.{ℤ, pos, minus_one, pos_part, ◌-ℤ◌, ◌==ℤ◌, rem_ℤ}

-- buff_desc_t. Status -1: empty, 1: being filled, 2: full, 3: being sent
pub record Desc : Type 0 where
  pub status : ℤ
  pub node_id : ℤ
  pub page_no : ℤ

abbrev pub no_page : Desc
no_page = record { status = minus_one; node_id = minus_one; page_no = minus_one }

-- COMEX_writeOut_buff[nodeID] and buff_pos[nodeID], with what the slots hold
pub record Ring {ℓ} (A : Type ℓ) : Type ℓ where
  pub buff : ℕ → Desc
  pub contents : ℕ → A
  pub head : ℕ
  pub tail : ℕ

-- The memory of the other node, by page number; whether do_write returns 0 for a transfer of `size`
-- pages from the slots from `slot` on, which depends on its checks and on ib_post_send; and what the
-- transfer writes then.
pub record Verbs {ℓ κ} (A : Type ℓ) (M : Type κ) : Type (ℓ ⊔ κ) where
  pub at : M → ℕ → A
  pub accepts : M → (slot page_no size : ℕ) → Bool
  pub write : M → (page_no size : ℕ) → (ℕ → A) → M
  pub write_here :
      (m : M) (page_no size : ℕ) (pages : ℕ → A) (i : ℕ)
      → i < size
      → at (write m page_no size pages) (page_no + i) ≡ pages i
  pub write_elsewhere :
      (m : M) (page_no size : ℕ) (pages : ℕ → A) (j : ℕ)
      → (leb page_no j && ltb j (page_no + size)) ≡ false
      → at (write m page_no size pages) j ≡ at m j

-- COMEX_free_buff
pub free_buff : (ℕ → Desc) → (page_no con_page : ℕ) → ℕ → Desc
free_buff d page_no zero = d
free_buff d page_no (suc con_page) = free_buff (update d page_no no_page) (page_no + 1) con_page

-- The test of COMEX_flush_buff that a page follows another one:
-- (next % 1024) - 1 == previous % 1024
pub follows : (previous next : ℤ) → Bool
follows previous next = rem_ℤ next 1024 -ℤ pos 1 ==ℤ rem_ℤ previous 1024

-- The loop of COMEX_flush_buff from slot `i` on, with `n` slots left up to the end of the array. The
-- result has the number of slots that are marked as being sent.
pub flush_scan : (n : ℕ) → (ℕ → Desc) → (i : ℕ) → (ℕ → Desc) × ℕ
flush_scan zero d i = (d, 0)
flush_scan (suc n) d i =
    let d' = update d i (record (d i) { status = pos 3 }) in
    let (rest, count) = flush_scan n d' (suc i) in
    let next_full = (d' (suc i)).status ==ℤ pos 2 in
    let stops = n == 0 || not (follows (d' i).page_no (d' (suc i)).page_no) && next_full in
    if (d i).status ==ℤ pos 2 then if stops then (d', 1) else (rest, suc count) else (d, 0)

-- COMEX_read_from_buffer: the loop over the slots from `i` on, with `n` slots left. The result is what
-- it copies, if it returns 1.
pub buffer_scan {ℓ} : {A : Type ℓ} → Ring A → (n i page_no : ℕ) → Option A
buffer_scan r zero i page_no = none
buffer_scan r (suc n) i page_no =
    let rest = buffer_scan r n (i + 1) page_no in
    let d = r.buff i in
    if (d.page_no ==ℤ pos page_no) && (d.status ==ℤ pos 2) then some (r.contents i) else rest

pub read_from_buffer {ℓ} : {A : Type ℓ} → (total_write_out : ℕ) → Ring A → (page_no : ℕ) → Option A
read_from_buffer total_write_out r page_no = buffer_scan r total_write_out 0 page_no

module _ {ℓ κ} {A : Type ℓ} {M : Type κ} (verbs : Verbs A M) (total_write_out : ℕ) where
  open verbs use {accepts, write}

  -- The end of COMEX_flush_buff, with the part of COMEX_RDMA_fn for PAGE_WRTE: the slots from head
  -- on are sent as one transfer and then emptied; if do_write does not return 0, COMEX_RDMA_fn returns
  -- before it empties them. head has been moved before the transfer.
  pub send : M → Ring A → (ℕ → Desc) → (count : ℕ) → M × Ring A
  send m r d count =
      let remote = pos_part (d r.head).page_no in
      let m' = write m remote count (λ i. r.contents (r.head + i)) in
      let head = (r.head + count) % total_write_out in
      if accepts m r.head remote count
      then (m', record r { buff = free_buff d r.head count; head = head })
      else (m, record r { buff = d; head = head })

  -- COMEX_flush_buff
  pub flush_buff : M → Ring A → M × Ring A
  flush_buff m r =
      let (d, count) = flush_scan (total_write_out - r.head) r.buff r.head in
      if count == 0 then (m, r) else send m r d count

  -- COMEX_flush_one, with the part of COMEX_RDMA_fn for PAGE_WRTE
  pub flush_one : M → Ring A → (slot : ℕ) → M × Ring A
  flush_one m r slot =
      let remote = pos_part (r.buff slot).page_no in
      let m' = write m remote 1 (λ i. r.contents (slot + i)) in
      if accepts m slot remote 1 then (m', record r { buff = free_buff r.buff slot 1 }) else (m, r)
