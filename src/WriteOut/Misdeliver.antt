-- ===== src/WriteOut/Misdeliver.antt =====
-- Pages of different 1024-page groups that COMEX_flush_buff takes for neighbours.
use comex.Base.{
  ℕ, suc, ◌+◌, ◌-◌, ◌%◌, ◌/◌, ◌≤◌, ◌<◌, ◌≡◌, ◌≢◌, refl, ap, ◌∙◌, true, false, ◌&&◌, ltb, leb,
  update_self, update_ne, arith,
}
use comex.Base.Int.{pos, pos_part, ◌-ℤ◌, rem_ℤ}
use comex.WriteOut.{Desc, Ring, Verbs, follows, flush_scan, send, flush_buff}
use comex.WriteOut.Scan.{flush_scan-Scanned}

-- A full slot for a page of node `n`.
abbrev pub full_slot : (n p : ℕ) → Desc
full_slot n p = record { status = pos 2; node_id = pos n; page_no = pos p }

follows_at : (p q : ℕ) → q % 1024 ≡ suc (p % 1024) → follows (pos p) (pos q) ≡ true
unfolding follows rem_ℤ ◌-ℤ◌
follows_at p q h = ground arith

-- The scan of the last two slots, if both are full and the second follows the first.
scan_two :
    (d : ℕ → Desc) (i n p q : ℕ)
    → d i ≡ full_slot n p
    → d (suc i) ≡ full_slot n q
    → q % 1024 ≡ suc (p % 1024)
    → (flush_scan 2 d i).1 ≡ 2
unfolding flush_scan
scan_two d i n p q x y h =
    let sending : Desc = record { status = pos 3; node_id = pos n; page_no = pos p } in
    let here = update_self d i sending in
    let there = update_ne d i sending (suc i) (λ e. omega arith) in
    rw (x, here, there, y, follows_at p q h) refl

module _ {ℓ κ} {A : Type ℓ} {M : Type κ} (verbs : Verbs A M) (total_write_out : ℕ) (m : M)
    (r : Ring A) where
  open verbs use {at, accepts, write_here, write_elsewhere}

  -- If the last two slots of the array, from head on, are full and their pages have neighbouring
  -- numbers modulo 1024 but lie in different 1024-page groups, and do_write returns 0 for the two pages from the first one's number on, then COMEX_flush_buff writes the
  -- second page's contents to the page after the first one, and leaves the second page as it was.
  pub flush_buff-misdelivers :
      (n p q : ℕ)
      → r.head + 2 ≡ total_write_out
      → r.buff r.head ≡ full_slot n p
      → r.buff (suc r.head) ≡ full_slot n q
      → q % 1024 ≡ suc (p % 1024)
      → q / 1024 ≢ p / 1024
      → accepts m r.head p 2 ≡ true
      → (at (flush_buff verbs total_write_out m r).0 (p + 1) ≡ r.contents (r.head + 1))
        × (at (flush_buff verbs total_write_out m r).0 q ≡ at m q)
  unfolding flush_buff send
  flush_buff-misdelivers n p q e x y f g ok =
      let rounds : total_write_out - r.head ≡ 2 = omega arith in
      let two = scan_two r.buff r.head n p q x y f in
      let s = flush_scan-Scanned 2 r.buff r.head in
      let first : pos_part ((flush_scan 2 r.buff r.head).0 r.head).page_no ≡ p =
        ap (λ d. pos_part d.page_no) (s.marked r.head (omega arith) (omega (arith, two)))
        ∙ ap (λ d. pos_part d.page_no) x in
      rw (rounds, two, first, ok)
        (
          write_here m p 2 (λ i. r.contents (r.head + i)) 1 (omega arith),
          write_elsewhere m p 2 (λ i. r.contents (r.head + i)) q
              (apart q (λ k l. omega (arith, f, g))),
        )
    where
      apart : (q : ℕ) → ((p ≤ q) → q < p + 2 → ⊥) → (leb p q && ltb q (p + 2)) ≡ false
      apart q h = ground arith
