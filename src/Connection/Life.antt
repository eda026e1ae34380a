-- ===== src/Connection/Life.antt =====
-- The life of a connection: the thread krping_run_all of `krpingTrimmed/krping.c` and what is given
-- back when the module winds down. What the verbs library returns is data, 0 for success, and so is
-- the state in which a wait ends. recv_mr, send_mr and rdma_buf are NULL always.
pub mod WindDown
use comex.Base.Errno.{eintr}
use comex.Base.{
  ℕ, zero, suc, ◌+◌, ◌%◌, Bool, true, false, not, List, [], ◌∷◌, Option, none, some, ltb, leb, ◌==◌,
  if◌then◌else◌, ◌>>=◌,
}
use comex.Base.Int.{ℤ, pos, negsuc, minus_one, ◌==ℤ◌}
use comex.Connection.{
  TestState, state_num, connect_request, route_resolved, is_error, BufferInfo, accept,
}
use comex.Connection.Setup.{
  Ptr, is_null, is_err, live, dangling, Resources, nothing, Answers, setup_qp,
}
use comex.Connection.Slots.{next_slot}

-- The part of a krping_cb that decides what is given back: the resources of krping_setup_qp, the
-- memory region, the mappings of the receive buffers, the send buffers, the table of this node's
-- pages and the table of the other node's, and the two ids of the connection manager. `ready` is
-- sem_ready.
pub record Cb : Type 0 where
  pub server : Bool
  pub res : Resources
  pub dma_mr : Ptr
  pub recv_mapping : Ptr
  pub send_mapping : Ptr
  pub ptable_mapping : Ptr
  pub dmabuf_mapping : Ptr
  pub child_cm_id : Ptr
  pub cm_id : Ptr
  pub vslotusing : ℕ
  pub exitstatus : ℕ
  pub ready : ℕ
  pub disconnected : Bool

-- A krping_cb as krping_doit makes it: kzalloc, the values that it sets, and rdma_create_id
unfoldable pub new_cb : (server : Bool) → Cb
new_cb server = record {
  server = server;
  res = nothing;
  dma_mr = is_null;
  recv_mapping = is_null;
  send_mapping = is_null;
  ptable_mapping = is_null;
  dmabuf_mapping = is_null;
  child_cm_id = is_null;
  cm_id = live;
  vslotusing = 0;
  exitstatus = 4;
  ready = 0;
  disconnected = false;
}

-- The results of the calls, in order: rdma_bind_addr or rdma_resolve_addr, rdma_listen,
-- krping_setup_qp's, ib_get_dma_mr, ib_post_recv for each slot, rdma_accept or rdma_connect; and the
-- states in which the two waits end
pub record RunAnswers : Type 0 where
  pub bind : ℤ
  pub listen : ℤ
  pub bound_state : TestState
  pub qp : Answers
  pub get_dma_mr : ℤ
  pub post_recv : (slot : ℕ) → ℤ
  pub connect : ℤ
  pub connected_state : TestState

-- VERB_RECV_SLOT
abbrev pub verb_recv_slot : ℕ
verb_recv_slot = 64

unfoldable pub bind_server : (bind listen : ℤ) → (bound_state : TestState) → ℤ
bind_server bind listen bound_state =
    if not (bind ==ℤ pos 0)
    then bind
    else if not (listen ==ℤ pos 0)
    then listen
    else if not (state_num bound_state == state_num connect_request)
    then minus_one
    else pos 0

unfoldable pub bind_client : (resolve : ℤ) → (bound_state : TestState) → ℤ
bind_client resolve bound_state =
    if not (resolve ==ℤ pos 0)
    then resolve
    else if not (state_num bound_state == state_num route_resolved)
    then eintr
    else pos 0

unfoldable pub connect_client : (connect : ℤ) → (connected_state : TestState) → ℤ
connect_client connect connected_state =
    if not (connect ==ℤ pos 0)
    then connect
    else if is_error connected_state
    then minus_one
    else pos 0

-- krping_setup_buffers
unfoldable pub setup_buffers : (get_dma_mr : ℤ) → Cb → Cb × ℤ
setup_buffers get_dma_mr cb =
    let mapped = record cb { recv_mapping = live; send_mapping = live } in
    if get_dma_mr ==ℤ pos 0
    then (record mapped { dma_mr = live; ptable_mapping = live }, pos 0)
    else (record mapped { dma_mr = is_err }, get_dma_mr)

-- What send_buffer_info sends
pub own_info : (ptable_dma_addr rkey localpagecount mynode_id : ℕ) → BufferInfo
own_info ptable_dma_addr rkey localpagecount mynode_id = record {
  buf = ptable_dma_addr;
  rkey = rkey;
  size = localpagecount;
  instanceno = mynode_id;
}

-- send_buffer_info, once its wait ends. It returns 0 always: the results of ib_post_send, kmalloc and
-- do_read_bufferptr are only logged.
unfoldable pub send_buffer_info : Cb → Cb × ℤ
send_buffer_info cb =
    (record cb { vslotusing = next_slot cb.vslotusing; dmabuf_mapping = live }, pos 0)

-- krping_test_server and krping_test_client
unfoldable pub test_peer : Cb → Cb
test_peer cb =
    let (cb', ret) = send_buffer_info cb in
    if ret ==ℤ pos 0 then record cb' { ready = suc cb'.ready } else cb'

-- disconnect_cb
unfoldable pub disconnect_cb : Cb → Cb
disconnect_cb cb = record cb { disconnected = true }

-- The loop that posts the receive requests from slot `i` on; `n` are left.
unfoldable pub post_recvs : (post_recv : ℕ → ℤ) → (n i : ℕ) → ℤ
post_recvs post_recv zero i = pos 0
post_recvs post_recv (suc n) i =
    let rest = post_recvs post_recv n (i + 1) in if post_recv i ==ℤ pos 0 then rest else post_recv i

-- krping_run_all from the receive requests on
unfoldable pub run_connected : RunAnswers → Cb → Cb
run_connected a cb =
    let ret =
      if cb.server
      then accept a.connect a.connected_state
      else connect_client a.connect a.connected_state in
    if not (post_recvs a.post_recv verb_recv_slot 0 ==ℤ pos 0)
    then cb
    else if not (ret ==ℤ pos 0)
    then disconnect_cb cb
    else test_peer cb

unfoldable pub run_bound : RunAnswers → Cb → Cb
run_bound a cb =
    let (res, ret) = setup_qp a.qp in
    let cb' = record cb { res = res; exitstatus = 1 } in
    let (cb'', err) = setup_buffers a.get_dma_mr cb' in
    let done = record cb'' { exitstatus = 0 } in
    if not (ret ==ℤ pos 0) then cb' else if not (err ==ℤ pos 0) then done else run_connected a done

-- krping_run_all. When krping_bind_server returns 0 the handler of the connection request has set
-- child_cm_id.
unfoldable pub run_all : RunAnswers → Cb → Cb
run_all a cb =
    let ret =
      if cb.server
      then bind_server a.bind a.listen a.bound_state
      else bind_client a.bind a.bound_state in
    let asked = record cb { child_cm_id = if cb.server then live else cb.child_cm_id } in
    if not (ret ==ℤ pos 0) then cb else run_bound a asked

-- A resource is given back. `none`: there is no resource to give back, or no longer.
abbrev pub release : Ptr → Option Ptr
release is_null = none
release is_err = none
release live = some dangling
release dangling = none

-- `if (p) release(p)`
abbrev pub release_some : Ptr → Option Ptr
release_some is_null = some is_null
release_some is_err = none
release_some live = some dangling
release_some dangling = none

unfoldable pub free_buffers : Cb → Option Cb
free_buffers cb = do
  mr ← release_some cb.dma_mr
  recv ← release cb.recv_mapping
  send ← release cb.send_mapping
  ptable ← release cb.ptable_mapping
  dmabuf ← release cb.dmabuf_mapping
  some (record cb {
    dma_mr = mr;
    recv_mapping = recv;
    send_mapping = send;
    ptable_mapping = ptable;
    dmabuf_mapping = dmabuf;
  })

unfoldable pub free_qp : Cb → Option Cb
free_qp cb = do
  qp ← release cb.res.qp
  cq_send ← release cb.res.cq_send
  cq_recv ← release cb.res.cq_recv
  pd ← release cb.res.pd
  some (record cb { res = record { pd = pd; cq_recv = cq_recv; cq_send = cq_send; qp = qp } })

-- The end of winddown_cb
unfoldable pub destroy_ids : Cb → Option Cb
destroy_ids cb = do
  child ← if cb.server then release cb.child_cm_id else some cb.child_cm_id
  id ← release cb.cm_id
  some (record cb { child_cm_id = child; cm_id = id })

-- winddown_cb: each case falls through to the next one. `none`: something is given back that is not
-- there.
unfoldable pub winddown_cb : Cb → (startingpoint : ℕ) → Option Cb
winddown_cb cb startingpoint =
    if startingpoint == 0
    then free_buffers cb >>= free_qp >>= destroy_ids
    else if startingpoint == 1
    then free_qp cb >>= destroy_ids
    else if startingpoint == 2
    then destroy_ids cb
    else some cb
