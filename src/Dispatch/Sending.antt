-- ===== src/Dispatch/Sending.antt =====
-- What becomes of the run of slots that COMEX_flush_buff hands to COMEX_RDMA.
use native.Mathlib.Nat.{div-add-mod', add-mul, mul_assoc, mul_comm, mul-le-mul_right, mod-lt}
use comex.Base.{
  Bool-cases, inl, inr, ℕ, zero, suc, ◌+◌, ◌*◌, ◌/◌, ◌%◌, ◌^◌, ◌≤◌, ◌≡◌, refl, sym, ap, ◌∙◌, Option,
  none, some, if◌then◌else◌, arith,
}
use comex.Base.Int.{ℤ, pos, ◌==ℤ◌}
use comex.Layout.{Sizes, page_size, get_write_out_buff, remote_shift_offset, remote_page_offset}
use comex.Layout.Regions.{remote_run-in_piece}
use comex.Transport.{rping_bufsize, rdma_write, WorkRequest, request}
use comex.Transport.Within.{
  InPiece, Transferred, refused, posted, IsFor-request, do_write-Transferred,
}
use comex.WriteOut.{Desc, free_buff}
use comex.Dispatch.{Address, page_wrte, Net, after_write, comex_rdma}

-- The address_t that COMEX_flush_buff fills for `count` slots from `head` on, the first for page `p`.
abbrev pub flush_address : Sizes → (node_id head p count : ℕ) → Address
flush_address z node_id head p count = record {
  local = get_write_out_buff z node_id head;
  remote = p * 2 ^ 12;
  size = count;
  buf_idx = head;
}

-- A run of slots of one ring does not cross the end of a 4 MB piece if the rings fit into pieces.
slots-InPiece :
    (z : Sizes) (k node_id head count : ℕ)
    → z.total_write_out * k ≡ 1024
    → head + count ≤ z.total_write_out
    → InPiece (get_write_out_buff z node_id head) (count * page_size)
unfolding get_write_out_buff
slots-InPiece z zero node_id head count e h = absurd (omega (arith, e))
slots-InPiece z (suc k') node_id head count e h =
    let k : ℕ = suc k' in
    let tw : ℕ = z.total_write_out in
    let a : ℕ = node_id / k in
    let b : ℕ = node_id % k in
    let whole : node_id * tw ≡ a * 1024 + b * tw =
      ap (λ x. x * tw) (sym (div-add-mod' node_id k))
      ∙ add-mul (a * k) b tw
      ∙ ap (λ x. x + b * tw) (mul_assoc a k tw ∙ ap (λ x. a * x) (mul_comm k tw ∙ e)) in
    let below : (b + 1) * tw ≤ k * tw =
      mul-le-mul_right tw (omega (arith, mod-lt node_id {m = k} (omega arith))) in
    let ring : b * tw + tw ≤ 1024 = omega (arith, below, add-mul b 1 tw, mul_comm k tw, e) in
    omega (arith, whole, ring, h)

after_write-posted :
    (wr : WorkRequest) (ret : ℤ) (buff : ℕ → Desc) (a : Address)
    → after_write (some wr, ret) buff a ≡ record {
      message = none;
      posted = some wr;
      buff = if ret ==ℤ pos 0 then free_buff buff a.buf_idx a.size else buff;
    }
unfolding after_write
after_write-posted wr ret buff a = elim (Bool-cases (ret ==ℤ pos 0)) [
  | inl t ↦ rw t refl
  | inr f ↦ rw f refl
]

-- If the rings fit into 4 MB pieces, the pages are of one 1024-page group and the other node's piece
-- is known, then PAGE_WRTE of a run of slots is posted, between the slots and the pages' places on the
-- other node; if the posting succeeds the slots are emptied, else they stay as they are.
pub page_wrte-Posted :
    (z : Sizes) (k : ℕ) (net : Net) (node_id : ℕ) (buff : ℕ → Desc) (head p count : ℕ)
    → z.total_write_out * k ≡ 1024
    → head + count ≤ z.total_write_out
    → p % 1024 + count ≤ 1024
    → remote_page_offset z p / rping_bufsize ≤ (net.peer node_id).remote_pcount
    → let wr =
        request
          (net.peer node_id)
          rdma_write
          (get_write_out_buff z node_id head)
          (remote_page_offset z p)
          (count * page_size) in
      comex_rdma net
        (remote_shift_offset z)
        node_id
        buff
        (page_wrte (flush_address z node_id head p count))
      ≡ record {
        message = none;
        posted = some wr;
        buff = if net.post wr ==ℤ pos 0 then free_buff buff head count else buff;
      }
unfolding comex_rdma after_write remote_page_offset remote_shift_offset
page_wrte-Posted z k net node_id buff head p count e h f g = by-cases _ (
    do_write-Transferred net.post (net.peer node_id) (get_write_out_buff z node_id head)
      (remote_page_offset z p) (count * page_size))
  where
    wr : WorkRequest
    wr =
        request (net.peer node_id) rdma_write (get_write_out_buff z node_id head)
          (remote_page_offset z p) (count * page_size)

    by-cases :
        (out : Option WorkRequest × ℤ)
        → Transferred net.post
            (net.peer node_id)
            rdma_write
            (get_write_out_buff z node_id head)
            (remote_page_offset z p)
            (count * page_size)
            out
        → after_write out buff (flush_address z node_id head p count) ≡ record {
          message = none;
          posted = some wr;
          buff = if net.post wr ==ℤ pos 0 then free_buff buff head count else buff;
        }
    by-cases out (refused o n) =
        absurd (n (slots-InPiece z k node_id head count e h, remote_run-in_piece z p count f, g))
    by-cases out (posted w o same x y b) =
        ap (λ x. after_write x buff (flush_address z node_id head p count))
          (o ∙ ap (λ v. (some v, net.post v)) (IsFor-request _ _ _ _ _ w same))
        ∙ after_write-posted wr (net.post wr) buff (flush_address z node_id head p count)

-- If the run of slots crosses the end of a 4 MB piece, PAGE_WRTE of it posts nothing and leaves the
-- slots as they are.
pub page_wrte-stuck :
    (z : Sizes) (net : Net) (node_id : ℕ) (buff : ℕ → Desc) (head p count : ℕ)
    → ¬ InPiece (get_write_out_buff z node_id head) (count * page_size)
    → comex_rdma net
        (remote_shift_offset z)
        node_id
        buff
        (page_wrte (flush_address z node_id head p count))
      ≡ record { message = none; posted = none; buff = buff }
unfolding comex_rdma after_write remote_page_offset
page_wrte-stuck z net node_id buff head p count n = by-cases _ (
    do_write-Transferred net.post (net.peer node_id) (get_write_out_buff z node_id head)
      (remote_page_offset z p) (count * page_size))
  where
    by-cases :
        (out : Option WorkRequest × ℤ)
        → Transferred net.post
            (net.peer node_id)
            rdma_write
            (get_write_out_buff z node_id head)
            (remote_page_offset z p)
            (count * page_size)
            out
        → after_write out buff (flush_address z node_id head p count)
          ≡ record { message = none; posted = none; buff = buff }
    by-cases out (refused o m) =
        ap (λ x. after_write x buff (flush_address z node_id head p count)) o
    by-cases out (posted w o same x y b) = absurd (n x)
