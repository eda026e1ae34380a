-- ===== src/Transport/Within.antt =====
-- Where transfers go.
use comex.Base.{
  ℕ, ◌+◌, ◌*◌, ◌/◌, ◌%◌, ◌≤◌, ◌<◌, ◌≡◌, refl, sym, ap, inl, inr, true, false, Bool-cases, Option,
  none, some, ltb, arith,
}
use comex.Base.Int.{ℤ, pos, ◌==ℤ◌, ==ℤ_iff}
use comex.Transport.{
  rping_bufsize, Opcode, rdma_write, rdma_read, WorkRequest, Peer, is_misaligned, is_beyond,
  request, transfer, do_write, do_read,
}

-- A run of `size` bytes lies in one 4 MB piece.
abbrev pub InPiece : (offset size : ℕ) → Type 0
InPiece offset size = offset % rping_bufsize + size ≤ rping_bufsize

-- `addr` is the place of the offset in a memory of 4 MB pieces with these addresses: the offset is
-- that of a byte of one piece, and `addr` is as far into that piece.
pub record IsPlace (piece : ℕ → ℕ) (offset addr : ℕ) : Type 0 where
  pub number : ℕ
  pub rest : ℕ
  pub parts : offset ≡ number * 4194304 + rest
  pub small : rest < 4194304
  pub there : addr ≡ piece number + rest

-- The work request is for the run.
pub record IsFor (cb : Peer) (opcode : Opcode) (l r size : ℕ) (wr : WorkRequest) : Type 0 where
  pub way : wr.opcode ≡ opcode
  pub bytes : wr.length ≡ size
  pub remote_key : wr.rkey ≡ cb.remote_rkey
  pub local_key : wr.lkey ≡ cb.dma_rkey
  pub local_place : IsPlace cb.dmapages l wr.addr
  pub remote_place : IsPlace cb.remote_addr r wr.remote_addr

-- What a transfer comes to: it is refused with 1 and posts nothing, or it posts a request for the
-- run, which is within one piece on both sides, and returns what the posting returns.
pub data Transferred (post : WorkRequest → ℤ) (cb : Peer) (opcode : Opcode) (l r size : ℕ)
    (out : Option WorkRequest × ℤ) : Type 0 where
  refused :
      out ≡ (none, pos 1)
      → ¬ (InPiece l size × InPiece r size × (r / rping_bufsize ≤ cb.remote_pcount))
      → Transferred post cb opcode l r size out
  posted :
      (wr : WorkRequest)
      → out ≡ (some wr, post wr)
      → IsFor cb opcode l r size wr
      → InPiece l size
      → InPiece r size
      → r / rping_bufsize ≤ cb.remote_pcount
      → Transferred post cb opcode l r size out

in_pieces :
    (piece : ℕ → ℕ) (offset : ℕ)
    → IsPlace piece offset (piece (offset / rping_bufsize) + offset % rping_bufsize)
in_pieces piece offset = record {
  number = offset / rping_bufsize;
  rest = offset % rping_bufsize;
  parts = omega arith;
  small = omega arith;
  there = refl;
}

request-IsFor :
    (cb : Peer) (opcode : Opcode) (l r size : ℕ)
    → IsFor cb opcode l r size (request cb opcode l r size)
request-IsFor cb opcode l r size = record {
  way = refl;
  bytes = refl;
  remote_key = refl;
  local_key = refl;
  local_place = in_pieces cb.dmapages l;
  remote_place = in_pieces cb.remote_addr r;
}

-- A place has one address.
IsPlace-unique :
    (piece : ℕ → ℕ) (offset addr : ℕ)
    → IsPlace piece offset addr
    → addr ≡ piece (offset / rping_bufsize) + offset % rping_bufsize
IsPlace-unique piece offset addr i =
    let n : offset / 4194304 ≡ i.number = omega (arith, i.parts, i.small) in
    let k : offset % 4194304 ≡ i.rest = omega (arith, i.parts, i.small) in rw (n, k) i.there

-- There is one request for a run.
pub IsFor-request :
    (cb : Peer) (opcode : Opcode) (l r size : ℕ) (wr : WorkRequest)
    → IsFor cb opcode l r size wr
    → wr ≡ request cb opcode l r size
IsFor-request cb opcode l r size wr i =
    same i.way i.remote_key i.local_key i.bytes (IsPlace-unique cb.dmapages l wr.addr i.local_place)
      (IsPlace-unique cb.remote_addr r wr.remote_addr i.remote_place)
  where
    same :
        wr.opcode ≡ opcode
        → wr.rkey ≡ cb.remote_rkey
        → wr.lkey ≡ cb.dma_rkey
        → wr.length ≡ size
        → wr.addr ≡ cb.dmapages (l / rping_bufsize) + l % rping_bufsize
        → wr.remote_addr ≡ cb.remote_addr (r / rping_bufsize) + r % rping_bufsize
        → wr ≡ request cb opcode l r size
    same u v w x y z = rw (← u, ← v, ← w, ← x, ← y, ← z) refl

is_misaligned_sound :
    (l r size : ℕ) → is_misaligned l r size ≡ true → InPiece l size → InPiece r size → ⊥
unfolding is_misaligned
is_misaligned_sound l r size t x y = ground arith

is_misaligned_complete :
    (l r size : ℕ) → is_misaligned l r size ≡ false → InPiece l size × InPiece r size
unfolding is_misaligned
is_misaligned_complete l r size f = (ground arith, ground arith)

-- A transfer is refused with 1 exactly if the run crosses the end of a piece on either side or the
-- number of the remote piece is above remote_pcount, so that the number remote_pcount itself, which
-- is one past the table, is not refused. Else a request is posted that has the given opcode and
-- size, the two keys, and the places of the run in the two pieces as its addresses, and the result is
-- that of the posting.
pub transfer-Transferred :
    (post : WorkRequest → ℤ) (cb : Peer) (opcode : Opcode) (l r size : ℕ)
    → Transferred post cb opcode l r size (transfer post cb opcode l r size)
unfolding transfer is_beyond
transfer-Transferred post cb opcode l r size =
    let wr = request cb opcode l r size in
    let is_for = request-IsFor cb opcode l r size in
    elim (Bool-cases (is_misaligned l r size)) [
      | inl t ↦ rw t (refused refl (λ h. is_misaligned_sound l r size t h.0 h.1))
      | inr f ↦
          let inside = is_misaligned_complete l r size f in
          elim (Bool-cases (ltb cb.remote_pcount (r / rping_bufsize))) [
            | inl b ↦ rw (f, b) (refused refl (λ h. ground (arith, h.2)))
            | inr g ↦ elim (Bool-cases (post wr ==ℤ pos 0)) [
              | inl z ↦
                  let zero : post wr ≡ pos 0 = (==ℤ_iff _ _).0 z in
                  rw (f, g, z)
                    (posted wr (ap (λ x. (some wr, x)) (sym zero)) is_for inside.0 inside.1
                      (ground arith))
              | inr z ↦ rw (f, g, z) (posted wr refl is_for inside.0 inside.1 (ground arith))
            ]
          ]
    ]

pub do_write-Transferred :
    (post : WorkRequest → ℤ) (cb : Peer) (l r size : ℕ)
    → Transferred post cb rdma_write l r size (do_write post cb l r size)
unfolding do_write
do_write-Transferred post cb l r size = transfer-Transferred post cb rdma_write l r size

pub do_read-Transferred :
    (post : WorkRequest → ℤ) (cb : Peer) (l r size : ℕ)
    → Transferred post cb rdma_read l r size (do_read post cb l r size)
unfolding do_read
do_read-Transferred post cb l r size = transfer-Transferred post cb rdma_read l r size
