-- ===== src/Connection.antt =====
-- A connection to another node: its states and the handlers of `krpingTrimmed/krping.c`. What the
-- verbs library reports is data: an event of the connection manager, or the list of completions that
-- polling yields with the last result of polling. A handler is one step.
pub mod Setup
pub mod Slots
pub mod Race
pub mod Life
pub mod Requests
mod Tests
use comex.Base.{
  ℕ, suc, not, ◌*◌, ◌+◌, ◌%◌, Bool, true, false, List, [], ◌∷◌, ◌++◌, Option, none, some, ltb, leb,
  ◌==◌, if◌then◌else◌,
}
use comex.Base.Int.{ℤ, pos, minus_one, ◌==ℤ◌}
use comex.Dispatch.{Command, do_verb}
use comex.Transport.{WorkRequest, rdma_read}

-- enum test_state, with its numbers
pub data TestState : Type 0 where
  idle connect_request addr_resolved route_resolved connected recv_info rdma_ready error : TestState

unfoldable pub state_num : TestState → ℕ
state_num idle = 1
state_num connect_request = 2
state_num addr_resolved = 3
state_num route_resolved = 4
state_num connected = 5
state_num recv_info = 6
state_num rdma_ready = 7
state_num error = 8

-- The wire form of struct buffer_info, after the conversions of byte order
pub record BufferInfo : Type 0 where
  pub buf : ℕ
  pub rkey : ℕ
  pub size : ℕ
  pub instanceno : ℕ

-- The part of a krping_cb that the handlers change, with what has been raised and posted so far: the
-- semaphore sem_verb_ack, the semaphores of transfers, the work that COMEX_do_verb has queued, and the
-- receive requests
pub record Connection : Type 0 where
  pub state : TestState
  pub remote : Option BufferInfo
  pub verb_ack : ℕ
  pub finished : List ℕ
  pub queued : List Command
  pub reposted : ℕ

-- RDMA_CM_EVENT_ADDR_RESOLVED and so on. The six that end the connection are one constructor.
pub data CmEvent : Type 0 where
  cm_addr_resolved cm_route_resolved cm_connect_request cm_established : CmEvent
  cm_disconnected cm_device_removal cm_other : CmEvent

-- krping_cma_event_handler. It returns 0 always.
pub cma_event_handler : Connection → CmEvent → Connection
cma_event_handler cb cm_addr_resolved = record cb { state = addr_resolved }
cma_event_handler cb cm_route_resolved = record cb { state = route_resolved }
cma_event_handler cb cm_connect_request = record cb { state = connect_request }
cma_event_handler cb cm_established = record cb { state = connected }
cma_event_handler cb cm_disconnected = record cb { state = error }
cma_event_handler cb cm_device_removal = cb
cma_event_handler cb cm_other = cb

-- A completion on the send side, as its status and opcode sort it. A transfer has its wr_id.
pub data SendCompletion : Type 0 where
  send_flushed send_failed sent send_unexpected : SendCompletion
  transferred : (wr_id : ℕ) → SendCompletion

abbrev pub shut_down : Connection → Connection
shut_down cb = record cb { state = error }

-- The loop of krping_cq_event_handler_send; `ret` is the result of the last ib_poll_cq.
pub send_completions : Connection → List SendCompletion → (ret : ℤ) → Connection
send_completions cb [] ret = if ret ==ℤ pos 0 then cb else shut_down cb
send_completions cb (send_flushed ∷ wcs) ret = send_completions cb wcs ret
send_completions cb (send_failed ∷ wcs) ret = shut_down cb
send_completions cb (send_unexpected ∷ wcs) ret = shut_down cb
send_completions cb (sent ∷ wcs) ret =
    send_completions (record cb { verb_ack = suc cb.verb_ack }) wcs ret
send_completions cb (transferred wr_id ∷ wcs) ret =
    let up = if wr_id == 0 then [] else wr_id ∷ [] in
    send_completions (record cb { finished = cb.finished ++ up }) wcs ret

pub is_error : TestState → Bool
is_error s = state_num s == 8

pub cq_event_handler_send : Connection → List SendCompletion → (ret : ℤ) → Connection
cq_event_handler_send cb wcs ret = if is_error cb.state then cb else send_completions cb wcs ret

-- What a receive buffer holds, read as a buffer_info or, for a CMD_num, as a message
pub record RecvBuf : Type 0 where
  pub buffer_info : BufferInfo
  pub piggy : (cmd_num : ℕ) → Command

-- universal_recv_handler. `memory` and `args_memory` are as in COMEX_do_verb.
pub recv_message : (memory args_memory : Bool) → Connection → (imm : ℕ) → RecvBuf → Connection
recv_message memory args_memory cb imm b =
    if imm == 2
    then record cb { remote = some (b.buffer_info); state = recv_info }
    else if imm == 4
    then cb
    else if imm == 5
    then cb
    else if imm == 99
    then cb
    else elim (do_verb memory args_memory (b.piggy imm)) [
      | none ↦ cb
      | some c ↦ record cb { queued = cb.queued ++ (c ∷ []) }
    ]

pub universal_recv_handler :
    (memory args_memory : Bool) → Connection → (imm : ℕ) → RecvBuf → Connection
universal_recv_handler memory args_memory cb imm b =
    let cb' = recv_message memory args_memory cb imm b in record cb' { reposted = suc cb'.reposted }

-- A completion on the receive side. `imm`: the immediate data, if the flag says that there is one
pub data RecvCompletion : Type 0 where
  recv_flushed recv_failed recv_rdma recv_unexpected : RecvCompletion
  received : (imm : Option ℕ) → RecvBuf → RecvCompletion

-- The loop of krping_cq_event_handler_recv
pub recv_completions :
    (memory args_memory : Bool) → Connection → List RecvCompletion → (ret : ℤ) → Connection
recv_completions memory args_memory cb [] ret = if ret ==ℤ pos 0 then cb else shut_down cb
recv_completions memory args_memory cb (recv_flushed ∷ wcs) ret =
    recv_completions memory args_memory cb wcs ret
recv_completions memory args_memory cb (recv_failed ∷ wcs) ret = shut_down cb
recv_completions memory args_memory cb (recv_unexpected ∷ wcs) ret = shut_down cb
recv_completions memory args_memory cb (recv_rdma ∷ wcs) ret =
    recv_completions memory args_memory cb wcs ret
recv_completions memory args_memory cb (received none b ∷ wcs) ret =
    recv_completions memory args_memory cb wcs ret
recv_completions memory args_memory cb (received (some imm) b ∷ wcs) ret =
    recv_completions memory args_memory (universal_recv_handler memory args_memory cb imm b) wcs ret

pub cq_event_handler_recv :
    (memory args_memory : Bool) → Connection → List RecvCompletion → (ret : ℤ) → Connection
cq_event_handler_recv memory args_memory cb wcs ret =
    if is_error cb.state then cb else recv_completions memory args_memory cb wcs ret

-- The wait of send_buffer_info
pub may_read_table : Connection → Bool
may_read_table cb = leb (state_num recv_info) (state_num cb.state)

-- do_read_bufferptr, where the other node's info has come: the request that is posted, whether
-- sem_read_able is up again at the end, and the result. `post` is ib_post_send.
pub read_bufferptr :
    (post : WorkRequest → ℤ) (dma_rkey remote_dmabuf_addr : ℕ)
    → Connection
    → BufferInfo
    → Connection × WorkRequest × Bool × ℤ
read_bufferptr post dma_rkey remote_dmabuf_addr cb info =
    let wr : WorkRequest = record {
      opcode = rdma_read;
      rkey = info.rkey;
      lkey = dma_rkey;
      length = 8 * info.size;
      addr = remote_dmabuf_addr;
      remote_addr = info.buf;
    } in
    if post wr ==ℤ pos 0
    then (record cb { state = rdma_ready }, wr, true, pos 0)
    else (cb, wr, false, post wr)

-- krping_accept, given what rdma_accept returns and the state when the wait for CONNECTED ends
pub accept : (rdma_accept : ℤ) → TestState → ℤ
accept ret state = if not (ret ==ℤ pos 0) then ret else if is_error state then minus_one else pos 0
