-- ===== src/Lend/Grant.antt =====
-- What a request is answered with.
use comex.Base.{ℕ, zero, suc, ◌+◌, ◌-◌, ◌≤◌, ◌<◌, ◌≡◌, refl, ap₂, [], arith}
use comex.Base.Int.{ℤ, pos, minus_one}
use comex.Buddy.{Buddy, rmqueue_smallest}
use comex.Buddy.Links.{max_order}
use comex.Buddy.Blocks.{Lists}
use comex.Buddy.Valid.{IsValid}
use comex.Buddy.Alloc.{Taken}
use comex.Buddy.Alloc.Search.{Outcome, nothing, block, rmqueue_smallest-Outcome}
use comex.Lend.{Reply, smaller_tries, pages_request}

-- Either a block of the size in the reply has been taken, or no list from `low` on holds a block,
-- and nothing has changed.
pub data Answer (total : ℕ) (b : Buddy) (ls : Lists) (node_id low high : ℕ) (out : Buddy × Reply)
    : Type 0 where
  granted :
      (p size : ℕ)
      → low ≤ size
      → size ≤ high
      → out.1 ≡ record { src_node = node_id; page_no = pos p; size = size }
      → Taken total ls size p out.0
      → Answer total b ls node_id low high out
  refused :
      out.1 ≡ record { src_node = node_id; page_no = minus_one; size = low }
      → out.0 ≡ b
      → ((o : ℕ) → low ≤ o → o < max_order → ls o ≡ [])
      → Answer total b ls node_id low high out

module _ {total : ℕ} {b : Buddy} {ls : Lists} (v : IsValid total b ls) (node_id low high : ℕ) where
  -- The reply after a try of this size.
  abbrev reply_of : ℤ → ℕ → Reply
  reply_of page_no size = record { src_node = node_id; page_no = page_no; size = size }

  granted_stays :
      (n p size : ℕ) (b' : Buddy)
      → smaller_tries n b' (reply_of (pos p) size) ≡ (b', reply_of (pos p) size)
  unfolding smaller_tries
  granted_stays zero p size b' = refl
  granted_stays (suc n) p size b' = refl

  after_try :
      (n size : ℕ)
      → n + low ≡ size
      → size ≤ high
      → size < max_order
      → (out : Buddy × ℤ) → Outcome total b ls size size out
      → Answer total b ls node_id low high (smaller_tries n out.0 (reply_of out.1 size))
  unfolding smaller_tries
  after_try n size e h m out (block p o l k f r t) =
      rw (r, granted_stays n p size out.0) (granted p size (omega arith) h refl t)
  after_try zero size e h m out (nothing r s f) =
      let same : size ≡ low = omega arith in
      refused (ap₂ reply_of r same) s (λ o x y. f o (omega arith) y)
  after_try (suc n) size e h m out (nothing r s f) =
      rw (r, s)
        (after_try n (size - 1) (omega arith) (omega arith) (omega arith)
          (rmqueue_smallest b (size - 1)) (rmqueue_smallest-Outcome v (size - 1) (omega arith)))

-- From a valid state a request is answered with a block that has been taken, of an order from
-- COMEX_refill down to 5, or to COMEX_refill if that is less, or with page -1; this only if no list of
-- the lowest of these orders or above holds a block, and then nothing has changed.
pub pages_request-Answer :
    {total : ℕ} {b : Buddy} {ls : Lists}
    → IsValid total b ls
    → (refill node_id : ℕ) → refill < max_order
    → Answer total b ls node_id (refill - (refill - 5)) refill (pages_request b refill node_id)
unfolding pages_request
pages_request-Answer {b} v refill node_id h =
    after_try v node_id (refill - (refill - 5)) refill (refill - 5) refill (omega arith)
      (omega arith) h (rmqueue_smallest b refill) (rmqueue_smallest-Outcome v refill h)
