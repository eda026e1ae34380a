-- ===== src/Connection/Life/WindDown.antt =====
-- Winding down after the thread of a connection has ended.
use comex.Base.{◌≡◌, Bool, false, Option, none, some, if◌then◌else◌}
use comex.Connection.Setup.{is_null, live, dangling, ready}
use comex.Connection.Life.{Cb, new_cb, disconnect_cb, winddown_cb}

-- All that a connection has is given back.
abbrev pub all_released : Cb → Cb
all_released cb = record cb {
  res = record { pd = dangling; cq_recv = dangling; cq_send = dangling; qp = dangling };
  dma_mr = dangling;
  recv_mapping = dangling;
  send_mapping = dangling;
  ptable_mapping = dangling;
  dmabuf_mapping = dangling;
  child_cm_id = if cb.server then dangling else cb.child_cm_id;
  cm_id = dangling;
}

-- How it ends: the connection was not bound, and nothing of it is given back; or it was bound but did
-- not become ready, and something is given back that is not there; or it became ready, and each of
-- its resources is given back once.
pub data WoundDown (server : Bool) (cb : Cb) (out : Option Cb) : Type 0 where
  not_bound : cb ≡ new_cb server → out ≡ some (disconnect_cb cb) → WoundDown server cb out
  not_ready : cb.ready ≡ 0 → out ≡ none → WoundDown server cb out
  all_given_back :
      cb.ready ≡ 1 → out ≡ some (all_released (disconnect_cb cb)) → WoundDown server cb out

abbrev pub wind_down : Cb → Option Cb
wind_down cb = winddown_cb (disconnect_cb cb) cb.exitstatus

-- A connection after krping_setup_buffers
abbrev set_up : (server : Bool) → Cb
set_up server = record {
  server = server;
  res = record { pd = live; cq_recv = live; cq_send = live; qp = live };
  dma_mr = live;
  recv_mapping = live;
  send_mapping = live;
  ptable_mapping = live;
  dmabuf_mapping = is_null;
  child_cm_id = if server then live else is_null;
  cm_id = live;
  vslotusing = 0;
  exitstatus = 0;
  ready = 0;
  disconnected = false;
}
