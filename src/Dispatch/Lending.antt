-- ===== src/Dispatch/Lending.antt =====
-- A request and its answer, through both nodes.
use comex.Base.{ℕ, ◌-◌, ◌^◌, ◌≤◌, ◌<◌, ◌≡◌, refl, ap, ◌∙◌, true, ◌++◌, some, update_self}
use comex.Base.Int.{ℤ, pos, minus_one}
use comex.Buddy.Links.{max_order}
use comex.Buddy.Blocks.{Lists}
use comex.Buddy.Valid.{IsValid}
use comex.Buddy.Alloc.{Taken}
use comex.FreeGroup.{FreeGroup, page_receive}
use comex.FreeGroup.Fifo
use comex.FreeGroup.Fifo.{pages, range, page_receive-enqueues, page_receive-none}
use comex.Lend.{Reply, pages_request}
use comex.Lend.Grant.{Answer, granted, refused, pages_request-Answer}
use comex.Dispatch.{page_rqst, page_rply, Net, Node, id_to_cb, do_work}

-- The group that a node keeps for the connection `cb`, after it has handled a reply.
abbrev pub group_after : Net → Node → (cb : ℕ) → Reply → FreeGroup
group_after net asker cb reply = (do_work net true asker (page_rply reply)).0.free_group cb

-- How a request ends on both sides: a block has left the lender's free pages and is at the end of the
-- asker's queue for the lender, or both are as before.
pub data Lent (total : ℕ) (lender : Node) (ls : Lists) (before : FreeGroup) (lender' : Node)
    (after : FreeGroup) : Type 0 where
  lent :
      (p size : ℕ)
      → size ≤ lender.refill
      → Taken total ls size p (lender'.buddy)
      → Fifo.IsValid after
      → pages after.free_group ≡ pages before.free_group ++ range p (2 ^ size)
      → Lent total lender ls before lender' after
  nothing_lent :
      lender'.buddy ≡ lender.buddy
      → Fifo.IsValid after
      → pages after.free_group ≡ pages before.free_group
      → Lent total lender ls before lender' after

group-received :
    (net : Net) (asker : Node) (cb : ℕ) (reply : Reply)
    → id_to_cb net.remotenode_id net.total_cb 0 reply.src_node ≡ pos cb
    → group_after net asker cb reply
      ≡ page_receive asker.refill true (asker.free_group cb) reply.page_no reply.size
unfolding do_work
group-received net asker cb reply e = rw (e, group_after) (update_self asker.free_group cb _)

-- COMEX_do_work of the request on the lender yields a reply to the asker. Once the asker has handled
-- it, with memory at hand and a connection `cb` to the lender, a block has left the lender's free pages
-- and its page numbers are at the end of the asker's queue for `cb`, or nothing has changed in either.
pub request-Lent :
    (total : ℕ) (lender : Node) (ls : Lists) (target : ℕ) (net net' : Net) (asker : Node) (cb : ℕ)
    → IsValid total lender.buddy ls
    → lender.refill < max_order
    → id_to_cb net'.remotenode_id net'.total_cb 0 lender.node_id ≡ pos cb
    → Fifo.IsValid (asker.free_group cb)
    → (reply : Reply) × ((do_work net true lender (page_rqst target)).1
        ≡ some (target, page_rply reply))
      × Lent total lender ls
          (asker.free_group cb)
          (do_work net true lender (page_rqst target)).0
          (group_after net' asker cb reply)
unfolding do_work
request-Lent total lender ls target net net' asker cb v h e g =
    let out = pages_request lender.buddy lender.refill lender.node_id in
    (out.1, refl, by-cases (pages_request-Answer v lender.refill lender.node_id h))
  where
    reply_of : ℤ → ℕ → Reply
    reply_of page_no size = record { src_node = lender.node_id; page_no = page_no; size = size }

    received :
        (r r' : Reply)
        → r ≡ r'
        → r'.src_node ≡ lender.node_id
        → group_after net' asker cb r
          ≡ page_receive asker.refill true (asker.free_group cb) r'.page_no r'.size
    received r r' d f =
        ap (group_after net' asker cb) d
        ∙ group-received net' asker cb r' (ap (id_to_cb net'.remotenode_id net'.total_cb 0) f ∙ e)

    by-cases :
        Answer total lender.buddy ls lender.node_id
          (lender.refill - (lender.refill - 5))
          lender.refill
          (pages_request lender.buddy lender.refill lender.node_id)
        → Lent total lender ls
            (asker.free_group cb)
            (do_work net true lender (page_rqst target)).0
            (group_after net' asker cb (pages_request lender.buddy lender.refill lender.node_id).1)
    by-cases (granted p size l k r t) =
        let same = received _ (reply_of (pos p) size) r refl in
        let queue = page_receive-enqueues asker.refill (asker.free_group cb) p size g in
        lent p size k t (rw same queue.0) (rw same queue.1)
    by-cases (refused r s f) =
        let low = lender.refill - (lender.refill - 5) in
        let same = received _ (reply_of minus_one low) r refl in
        let queue = page_receive-none asker.refill true (asker.free_group cb) 0 low g in
        nothing_lent s (rw same queue.0) (rw same queue.1)
