-- ===== src/Connection/Requests.antt =====
-- The work requests of messages: krping_setup_wr of `krpingTrimmed/krping.c`. `bufferx` is the size of
-- a union bufferx.
use native.Mathlib.Nat.{mul-le-mul_right, suc-mul}
use comex.Base.{ℕ, ◌+◌, ◌*◌, ◌<◌, ◌≤◌, Bool, ◌≢◌, arith}
use comex.Connection.Slots.{verb_send_slot, is_signaled}
use comex.Connection.Life.{verb_recv_slot}

pub record RecvRequest : Type 0 where
  pub wr_id : ℕ
  pub addr : ℕ
  pub length : ℕ
  pub lkey : ℕ

-- A send is inline, so that its address is that of the buffer itself.
pub record SendRequest : Type 0 where
  pub wr_id : ℕ
  pub addr : ℕ
  pub lkey : ℕ
  pub signaled : Bool

-- The request of slot `i`, as the two loops fill it
unfoldable pub recv_request : (bufferx recv_dma_addr lkey i : ℕ) → RecvRequest
recv_request bufferx recv_dma_addr lkey i = record {
  wr_id = i;
  addr = recv_dma_addr + i * bufferx;
  length = bufferx;
  lkey = lkey;
}

unfoldable pub send_request : (bufferx send_buf lkey i : ℕ) → SendRequest
send_request bufferx send_buf lkey i = record {
  wr_id = i + 1;
  addr = send_buf + i * bufferx;
  lkey = lkey;
  signaled = is_signaled i;
}

slot_end : (i n b : ℕ) → i < n → i * b + b ≤ n * b
slot_end i n b h = omega (arith, mul-le-mul_right b h, suc-mul i b)

-- The receive buffers of different slots share no byte and lie within the buffers that are mapped, and so
-- do those of the sends; the requests of different slots have different numbers.
pub setup_wr-Within :
    (bufferx recv_dma_addr send_buf lkey i j : ℕ)
    → i < j
    → let r = λ (k : ℕ). recv_request bufferx recv_dma_addr lkey k in
      let s = λ (k : ℕ). send_request bufferx send_buf lkey k in
      (j < verb_recv_slot
        → ((r i).addr + (r i).length ≤ (r j).addr)
          × ((r j).addr + (r j).length ≤ recv_dma_addr + verb_recv_slot * bufferx)
          × ((r i).wr_id ≢ (r j).wr_id))
      × (j < verb_send_slot
          → ((s i).addr + bufferx ≤ (s j).addr)
            × ((s j).addr + bufferx ≤ send_buf + verb_send_slot * bufferx)
            × ((s i).wr_id ≢ (s j).wr_id))
unfolding recv_request send_request
setup_wr-Within bufferx recv_dma_addr send_buf lkey i j h = (
  λ l. (
    omega (arith, slot_end i j bufferx h),
    omega (arith, slot_end j verb_recv_slot bufferx l),
    λ e. omega (arith, h, e),
  ),
  λ l. (
    omega (arith, slot_end i j bufferx h),
    omega (arith, slot_end j verb_send_slot bufferx l),
    λ e. omega (arith, h, e),
  ),
)
