-- ===== src/Transport/Tests.antt =====
-- Runs of the memory's set-up, of the translation of offsets and of transfers.
use comex.Base.{ℕ, ◌*◌, ◌≡◌, ◌≢◌, inl, inr, Bool-cases, ◌==◌, if◌then◌else◌, arith}
use comex.Layout.{page_size}
use comex.Base.Int.{pos}
use comex.Transport.{rping_bufsize, translate_useraddr, regis_bigspace, Peer, rdma_write, transfer}
use comex.Transport.Pieces.{
  AreApart, translate_useraddr-Apart, Registered, regis_bigspace-Registered,
}
use comex.Transport.Within.{Transferred, transfer-Transferred}

-- Two pieces are allocated.
abbrev two_pieces : ℕ → ℕ
two_pieces j = if j == 0 then 16777216 else if j == 1 then 4194304 else 0

two_pieces-apart :
    (i j : ℕ)
    → i ≢ j
    → two_pieces i ≢ 0
    → two_pieces j ≢ 0
    → AreApart rping_bufsize (two_pieces i) (two_pieces j)
two_pieces-apart i j d a b = elim (Bool-cases (i == 0)) [
  | inl t ↦ let e : j ≡ 1 = ground arith in rw (t, e) (inr (omega arith))
  | inr f ↦
      let e : i ≡ 1 = ground arith in let g : j ≡ 0 = ground arith in rw (e, g) (inl (omega arith))
]

-- Pages 1023 and 1024 lie in different pieces.
translate_useraddr-Apart_example :
    AreApart page_size
      (translate_useraddr two_pieces (1023 * page_size))
      (translate_useraddr two_pieces (1024 * page_size))
unfolding translate_useraddr
translate_useraddr-Apart_example =
    translate_useraddr-Apart two_pieces 1023 1024 two_pieces-apart (λ e. omega arith)
      (λ e. omega arith) (λ e. omega arith)

-- The third allocation fails.
regis_bigspace-Registered_example :
    Registered two_pieces 4 0 (regis_bigspace two_pieces 4 (λ j. 99))
regis_bigspace-Registered_example = regis_bigspace-Registered two_pieces 4 (λ j. 99)

abbrev some_peer : Peer
some_peer = record {
  dmapages = λ i. i * 8388608;
  remote_addr = λ i. i * 16777216;
  remote_pcount = 4;
  remote_rkey = 7;
  dma_rkey = 9;
}

-- Two pages are written.
transfer-Transferred_example :
    Transferred
      (λ wr. pos 0)
      some_peer
      rdma_write
      4096
      12582912
      8192
      (transfer (λ wr. pos 0) some_peer rdma_write 4096 12582912 8192)
transfer-Transferred_example =
    transfer-Transferred (λ wr. pos 0) some_peer rdma_write 4096 12582912 8192
