-- ===== src/Dispatch.antt =====
-- The messages between the nodes: `krpingTrimmed/COMEX_module_lib.h`. COMEX_RDMA_fn sends them and
-- starts transfers, COMEX_do_verb puts those that arrive into the work queue, COMEX_do_work handles
-- them one after the other.
pub mod Lending
pub mod Sending
mod Tests
use comex.Base.{
  ℕ, zero, suc, ◌+◌, ◌*◌, ◌^◌, Bool, true, false, List, [], ◌∷◌, Option, none, some, ◌==◌,
  if◌then◌else◌, update,
}
use comex.Base.Int.{ℤ, pos, negsuc, minus_one, ◌==ℤ◌}
use comex.Buddy.{Buddy}
use comex.FreeGroup.{FreeGroup, page_receive}
use comex.FreeBatch.{Slot}
use comex.Layout.{Sizes, page_size, remote_shift_offset}
use comex.Lend.{Reply, pages_request}
use comex.Reclaim.{PageRun, free_runs}
use comex.Transport.{WorkRequest, Peer, do_write, do_read}
use comex.WriteOut.{Desc, free_buff}

-- COMEX_address_t
pub record Address : Type 0 where
  pub local : ℕ
  pub remote : ℕ
  pub size : ℕ
  pub buf_idx : ℕ

-- A CMD_num with what its pointer points to: the number of the asking node, a reply, a transfer, an
-- array of pages that are given back, or the offset of a page.
pub data Command : Type 0 where
  page_rqst : ℕ → Command
  page_rply : Reply → Command
  page_wrte : Address → Command
  page_read : Address → Command
  page_free : List Slot → Command
  page_cksm : ℕ → Command
  unknown : ℕ → Command

-- CODE_COMEX_PAGE_RQST and so on
pub cmd_num : Command → ℕ
cmd_num (page_rqst n) = 10010
cmd_num (page_rply r) = 10011
cmd_num (page_wrte a) = 10100
cmd_num (page_read a) = 10200
cmd_num (page_free s) = 10300
cmd_num (page_cksm o) = 19000
cmd_num (unknown n) = n

-- ID_to_CB: the first of the `n` connections from `i` on that leads to the node, or -1.
pub id_to_cb : (remotenode_id : ℕ → ℕ) (n i node_id : ℕ) → ℤ
id_to_cb remotenode_id zero i node_id = minus_one
id_to_cb remotenode_id (suc n) i node_id =
    let rest = id_to_cb remotenode_id n (i + 1) node_id in
    if remotenode_id i == node_id then pos i else rest

-- The connections cbs[0], cbs[1], … as far as these functions use them.
pub record Net : Type 0 where
  pub total_cb : ℕ
  pub remotenode_id : ℕ → ℕ
  pub peer : ℕ → Peer
  pub post : WorkRequest → ℤ

-- What a call of COMEX_RDMA_fn does: the message that universal_send gets, with the index into cbs;
-- the transfer that is posted; the target's write-out descriptors.
pub record Sent : Type 0 where
  pub message : Option (ℤ × Command)
  pub posted : Option WorkRequest
  pub buff : ℕ → Desc

abbrev pub message_only : (ℕ → Desc) → ℤ → Command → Sent
message_only buff cb command = record { message = some (cb, command); posted = none; buff = buff }

-- CHK of do_write, and then COMEX_free_buff
pub after_write : Option WorkRequest × ℤ → (ℕ → Desc) → Address → Sent
after_write (wr, ret) buff a =
    if ret ==ℤ pos 0
    then record { message = none; posted = wr; buff = free_buff buff a.buf_idx a.size }
    else record { message = none; posted = wr; buff = buff }

-- COMEX_RDMA_fn. `shift` is remote_shift_offset. universal_send always returns 0, so CHK passes.
pub comex_rdma : Net → (shift target : ℕ) → (ℕ → Desc) → Command → Sent
comex_rdma net shift target buff (page_rqst n) = message_only buff (pos target) (page_rqst n)
comex_rdma net shift target buff (page_rply r) =
    message_only buff (id_to_cb net.remotenode_id net.total_cb 0 target) (page_rply r)
comex_rdma net shift target buff (page_wrte a) =
    after_write (do_write net.post (net.peer target) a.local (a.remote + shift) (a.size * 2 ^ 12))
      buff a
comex_rdma net shift target buff (page_read a) =
    let (wr, ret) =
      do_read net.post (net.peer target) a.local (a.remote + shift) (a.size * 2 ^ 12) in
    record { message = none; posted = wr; buff = buff }
comex_rdma net shift target buff (page_free s) = message_only buff (pos target) (page_free s)
comex_rdma net shift target buff (page_cksm o) = message_only buff (pos target) (page_cksm o)
comex_rdma net shift target buff (unknown n) = record { message = none; posted = none; buff = buff }

-- COMEX_do_verb: the work that is queued. `memory` and `args_memory`: the two kzalloc calls find
-- memory. PAGE_CKSM only prints, and the other numbers are errors.
pub do_verb : (memory args_memory : Bool) → Command → Option Command
do_verb false args_memory c = none
do_verb true args_memory (page_rqst n) = if args_memory then some (page_rqst n) else none
do_verb true args_memory (page_rply r) = if args_memory then some (page_rply r) else none
do_verb true args_memory (page_free s) = if args_memory then some (page_free s) else none
do_verb true args_memory (page_wrte a) = none
do_verb true args_memory (page_read a) = none
do_verb true args_memory (page_cksm o) = none
do_verb true args_memory (unknown n) = none

-- The entries of a PAGE_FREE message that are in use: the loop of COMEX_do_work does nothing for a
-- count of 0, which an unused entry, with page -1, has.
pub used_runs : List Slot → List PageRun
used_runs [] = []
used_runs (s ∷ ss) = elim (s.page_no) [
  | pos p ↦ record { page_no = p; count = s.count } ∷ used_runs ss
  | negsuc k ↦ used_runs ss
]

-- What COMEX_do_work reads and writes: COMEX_ID, COMEX_refill, the allocator and COMEX_free_group.
pub record Node : Type 0 where
  pub node_id : ℕ
  pub refill : ℕ
  pub buddy : Buddy
  pub free_group : ℕ → FreeGroup

abbrev pub set_group : Node → ℤ → (FreeGroup → FreeGroup) → Node
set_group s (pos cb) f = record s { free_group = update s.free_group cb (f (s.free_group cb)) }
set_group s (negsuc k) f = s

-- COMEX_do_work: the state, and the target and message for COMEX_RDMA, if there is one. `memory`:
-- kzalloc finds memory in COMEX_page_receive. A reply from a node with no connection, for which the
-- code writes to COMEX_free_group[-1], leaves this state alone.
pub do_work : Net → (memory : Bool) → Node → Command → Node × Option (ℕ × Command)
do_work net memory s (page_rqst target) =
    let (b, reply) = pages_request s.buddy s.refill s.node_id in
    (record s { buddy = b }, some (target, page_rply reply))
do_work net memory s (page_rply r) =
    let cb = id_to_cb net.remotenode_id net.total_cb 0 r.src_node in
    (set_group s cb (λ g. page_receive s.refill memory g r.page_no r.size), none)
do_work net memory s (page_free ss) = (record s { buddy = free_runs s.buddy (used_runs ss) }, none)
do_work net memory s (page_wrte a) = (s, none)
do_work net memory s (page_read a) = (s, none)
do_work net memory s (page_cksm o) = (s, none)
do_work net memory s (unknown n) = (s, none)
