-- ===== src/Connection/Tests.antt =====
-- Runs of a connection.
use comex.Base.{
  ℕ, ◌%◌, ◌==◌, if◌then◌else◌, ◌+◌, ◌<◌, ◌≤◌, ◌≡◌, true, false, [], ◌∷◌, none, some, arith,
}
use comex.Base.Int.{ℤ, pos, negsuc}
use comex.Dispatch.{unknown}
use comex.Connection.{
  Connection, TestState, idle, RecvBuf, cm_established, cm_disconnected, cm_other,
  cma_event_handler, universal_recv_handler, may_read_table,
}
use comex.Connection.Race.{cma_events, established-blocks}
use comex.Connection.Life.{RunAnswers}
use comex.Connection.Setup.{Answers, SetUp, setup_qp, setup_qp-SetUp}
use comex.Connection.Slots.{verb_send_slot, Message, SendSlots, nth_send, universal_send-waits}

-- The messages carry their numbers, and every other posting fails.
abbrev some_posts : Message ℕ → ℤ
some_posts m = if m.bytes % 2 == 0 then pos 0 else negsuc 11

abbrev counted : ℕ → Message ℕ
counted n = record { imm = 4; bytes = n; size = 8 }

abbrev late_slots : SendSlots ℕ
late_slots = record { vslotusing = 22; slots = λ j. record { imm = 0; bytes = 0; size = 0 } }

universal_send-waits_example :
    ((n : ℕ) → (k : ℕ) × (k < 4) × ((nth_send some_posts late_slots counted (n + k)).waits ≡ true))
    × ((i j : ℕ)
        → i < j
        → (nth_send some_posts late_slots counted i).slot
          ≡ (nth_send some_posts late_slots counted j).slot
        → i + verb_send_slot ≤ j)
    × ((n : ℕ) → (nth_send some_posts late_slots counted n).message ≡ counted n)
universal_send-waits_example = universal_send-waits some_posts late_slots counted (omega arith)

-- The completion queue for sending cannot be made.
abbrev one_queue : Answers
one_queue = record {
  alloc_pd = pos 0;
  create_recv = pos 0;
  create_send = negsuc 11;
  notify_send = pos 0;
  notify_recv = pos 0;
  create_qp = pos 0;
}

setup_qp-SetUp_example : SetUp one_queue (setup_qp one_queue)
setup_qp-SetUp_example = setup_qp-SetUp one_queue

abbrev new_connection : Connection
new_connection = record {
  state = idle;
  remote = none;
  verb_ack = 0;
  finished = [];
  queued = [];
  reposted = 0;
}

abbrev some_info : RecvBuf
some_info = record {
  buffer_info = record { buf = 4096; rkey = 7; size = 3; instanceno = 1 };
  piggy = λ c. unknown c;
}

established-blocks_example :
    let informed = universal_recv_handler true true new_connection 2 some_info in
    let later = cma_events (cma_event_handler informed cm_established) (cm_other ∷ []) in
    (may_read_table informed ≡ true)
    × (informed.remote ≡ some (some_info.buffer_info))
    × (may_read_table later ≡ false)
established-blocks_example =
    established-blocks true true new_connection some_info (cm_other ∷ []) (other-not_end, tt)
  where
    other-not_end : cm_other ≡ cm_disconnected → ⊥
    other-not_end e = cc

-- A server whose memory region cannot be made.
abbrev no_region : RunAnswers
no_region = record {
  bind = pos 0;
  listen = pos 0;
  bound_state = TestState.connect_request;
  qp = record one_queue { create_send = pos 0 };
  get_dma_mr = negsuc 11;
  post_recv = λ i. pos 0;
  connect = pos 0;
  connected_state = TestState.connected;
}
