-- ===== src/Connection/Race.antt =====
-- The buffer_info of the other node can come before the connection is reported as established.
use comex.Base.{◌≤◌, ◌≡◌, ◌≢◌, refl, Bool, true, false, List, [], ◌∷◌, some, All, arith}
use comex.Connection.{
  state_num, Connection, RecvBuf, CmEvent, cm_addr_resolved, cm_route_resolved, cm_connect_request,
  cm_established, cm_disconnected, cm_device_removal, cm_other, cma_event_handler, recv_message,
  universal_recv_handler, may_read_table,
}

-- A sequence of events of the connection manager
pub cma_events : Connection → List CmEvent → Connection
cma_events cb [] = cb
cma_events cb (e ∷ es) = cma_events (cma_event_handler cb e) es

cma_event-low :
    (cb : Connection) (e : CmEvent)
    → e ≢ cm_disconnected
    → state_num cb.state ≤ 5
    → state_num (cma_event_handler cb e).state ≤ 5
unfolding cma_event_handler state_num
cma_event-low cb cm_addr_resolved n h = omega arith
cma_event-low cb cm_route_resolved n h = omega arith
cma_event-low cb cm_connect_request n h = omega arith
cma_event-low cb cm_established n h = omega arith
cma_event-low cb cm_disconnected n h = absurd (n refl)
cma_event-low cb cm_device_removal n h = h
cma_event-low cb cm_other n h = h

cma_events-low :
    (cb : Connection) (es : List CmEvent)
    → All (λ e. e ≢ cm_disconnected) es
    → state_num cb.state ≤ 5
    → state_num (cma_events cb es).state ≤ 5
unfolding cma_events
cma_events-low cb [] n h = h
cma_events-low cb (e ∷ es) n h =
    cma_events-low (cma_event_handler cb e) es n.1 (cma_event-low cb e n.0 h)

low-blocked : (cb : Connection) → state_num cb.state ≤ 5 → may_read_table cb ≡ false
unfolding may_read_table state_num
low-blocked cb h = ground arith

-- When the buffer_info has come send_buffer_info may go on; if then the connection is reported as
-- established it may not, though the info is there, and no events of the connection manager but the end of
-- the connection change that.
pub established-blocks :
    (memory args_memory : Bool) (cb : Connection) (b : RecvBuf) (es : List CmEvent)
    → All (λ e. e ≢ cm_disconnected) es
    → let informed = universal_recv_handler memory args_memory cb 2 b in
      let later = cma_events (cma_event_handler informed cm_established) es in
      (may_read_table informed ≡ true)
      × (informed.remote ≡ some (b.buffer_info))
      × (may_read_table later ≡ false)
unfolding universal_recv_handler recv_message may_read_table cma_event_handler state_num
established-blocks memory args_memory cb b es n = (
  refl,
  refl,
  low-blocked
      (cma_events
        (cma_event_handler (universal_recv_handler memory args_memory cb 2 b) cm_established) es)
      (cma_events-low _ es n (omega arith)),
)
