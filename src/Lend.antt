-- ===== src/Lend.antt =====
-- How a node lends pages: COMEX_pages_request of `Kernel Modification/comex_remote.h`, the answer to
-- another node's request.
pub mod Grant
mod Tests
use comex.Base.{ℕ, zero, suc, ◌-◌}
use comex.Base.Int.{ℤ, pos, negsuc}
use comex.Buddy.{Buddy, rmqueue_smallest}

-- reply_pages_t, the message PAGE_RPLY
pub record Reply : Type 0 where
  pub src_node : ℕ
  pub page_no : ℤ
  pub size : ℕ

-- The loop from the reply to the last try on, with the `n` tries left that i > 5 allows.
pub smaller_tries : (n : ℕ) → Buddy → Reply → Buddy × Reply
smaller_tries zero b reply = (b, reply)
smaller_tries (suc n) b reply = elim (reply.page_no) [
  | pos p ↦ (b, reply)
  | negsuc k ↦
      let (b', page_no) = rmqueue_smallest b (reply.size - 1) in
      smaller_tries n b' (record reply { page_no = page_no; size = reply.size - 1 })
]

-- COMEX_pages_request up to the message: `refill` is COMEX_refill and `node_id` COMEX_ID.
pub pages_request : Buddy → (refill node_id : ℕ) → Buddy × Reply
pages_request b refill node_id =
    let (b', page_no) = rmqueue_smallest b refill in
    smaller_tries (refill - 5) b' (record { src_node = node_id; page_no = page_no; size = refill })
