-- ===== src/WriteOut/Scan.antt =====
-- What the loop of COMEX_flush_buff finds.
use comex.Base.{
  ℕ, zero, suc, ◌+◌, ◌≤◌, ◌<◌, ◌≡◌, refl, ◌∙◌, inl, inr, true, false, not, ◌&&◌, ◌||◌, Bool-cases,
  ltb, leb, ◌==◌, ==_iff, update, update_self, update_ne, arith,
}
use comex.Base.Int.{pos, ◌==ℤ◌, ==ℤ_iff}
use comex.WriteOut.{Desc, follows, flush_scan}

-- The `k` slots from `i` on are full and each follows the one before it. They, and no others, are
-- marked as being sent.
pub record Scanned (n : ℕ) (d : ℕ → Desc) (i : ℕ) (d' : ℕ → Desc) (k : ℕ) : Type 0 where
  pub fits : k ≤ n
  pub full : (j : ℕ) → i ≤ j → j < i + k → (d j).status ≡ pos 2
  pub joined : (j : ℕ) → i ≤ j → suc j < i + k → follows (d j).page_no (d (suc j)).page_no ≡ true
  pub marked : (j : ℕ) → i ≤ j → j < i + k → d' j ≡ record (d j) { status = pos 3 }
  pub same : (j : ℕ) → (leb i j && ltb j (i + k)) ≡ false → d' j ≡ d j
  pub starts : 1 ≤ n → (d i).status ≡ pos 2 → 1 ≤ k

abbrev sending : Desc → Desc
sending s = record s { status = pos 3 }

none-Scanned :
    (n : ℕ) (d : ℕ → Desc) (i : ℕ) → (1 ≤ n → ((d i).status ==ℤ pos 2) ≡ false) → Scanned n d i d 0
none-Scanned n d i f = record {
  fits = omega arith;
  full = λ j x y. absurd (omega arith);
  joined = λ j x y. absurd (omega arith);
  marked = λ j x y. absurd (omega arith);
  same = λ j x. refl;
  starts = λ h e. absurd (not-full (f h) e);
}
  where
    not-full : ((d i).status ==ℤ pos 2) ≡ false → (d i).status ≡ pos 2 → ⊥
    not-full f e = ground (arith, f, (==ℤ_iff (d i).status (pos 2)).1 e)

module _ (n : ℕ) (d : ℕ → Desc) (i : ℕ) (full : (d i).status ≡ pos 2) where
  one-Scanned : Scanned (suc n) d i (update d i (sending (d i))) 1
  unfolding update
  one-Scanned = record {
    fits = omega arith;
    full = λ j x y. let e : j ≡ i = omega arith in rw e full;
    joined = λ j x y. absurd (omega arith);
    marked = λ j x y. let e : j ≡ i = omega arith in rw (e, update_self d i (sending (d i))) refl;
    same = λ j x. update_ne d i (sending (d i)) j (ground arith);
    starts = λ h e. omega arith;
  }

  -- A full slot, and what was found behind it.
  cons-Scanned :
      (rest : ℕ → Desc) (k : ℕ)
      → Scanned n (update d i (sending (d i))) (suc i) rest k
      → (1 ≤ k → follows (d i).page_no (d (suc i)).page_no ≡ true)
      → Scanned (suc n) d i rest (suc k)
  cons-Scanned rest k r f = record {
    fits = omega (arith, r.fits);
    full = λ j x y. elim (Bool-cases (j == i)) [
      | inl t ↦ rw ((==_iff j i).0 t) full
      | inr u ↦ rw (← later j (ground arith)) (r.full j (ground arith) (omega arith))
    ];
    joined = λ j x y. elim (Bool-cases (j == i)) [
      | inl t ↦ rw ((==_iff j i).0 t) (f (ground arith))
      | inr u ↦
          rw (← later j (ground arith), ← later (suc j) (omega arith))
            (r.joined j (ground arith) (omega arith))
    ];
    marked = λ j x y. elim (Bool-cases (j == i)) [
      | inl t ↦ rw ((==_iff j i).0 t) (r.same i (ground arith) ∙ update_self d i (sending (d i)))
      | inr u ↦ rw (← later j (ground arith)) (r.marked j (ground arith) (omega arith))
    ];
    same = λ j x. r.same j (ground arith) ∙ update_ne d i (sending (d i)) j (ground arith);
    starts = λ h e. omega arith;
  }
    where
      later : (j : ℕ) → suc i ≤ j → update d i (sending (d i)) j ≡ d j
      later j h = update_ne d i (sending (d i)) j (ground arith)

-- If the loop goes on and finds a slot behind a full one, its page follows.
next :
    (n : ℕ) (d : ℕ → Desc) (i : ℕ) (rest : ℕ → Desc) (k : ℕ)
    → (let d' : ℕ → Desc = update d i (sending (d i)) in
        Scanned n d' (suc i) rest k
        → (n == 0
            || not (follows (d' i).page_no (d' (suc i)).page_no) && ((d' (suc i)).status ==ℤ pos 2))
          ≡ false
        → 1 ≤ k
        → follows (d i).page_no (d (suc i)).page_no ≡ true)
next n d i rest k r s h =
    let here = update_self d i (sending (d i)) in
    let there = update_ne d i (sending (d i)) (suc i) (λ e. omega arith) in
    let full = rw there at (r.full (suc i) (omega arith) (omega arith)) in
    let test = rw (here, there, full) at s in ground arith

pub flush_scan-Scanned :
    (n : ℕ) (d : ℕ → Desc) (i : ℕ) → Scanned n d i (flush_scan n d i).0 (flush_scan n d i).1
unfolding flush_scan
flush_scan-Scanned zero d i = none-Scanned zero d i (λ h. absurd (omega arith))
flush_scan-Scanned (suc n) d i = elim (Bool-cases ((d i).status ==ℤ pos 2)) [
  | inr e ↦ rw e (none-Scanned (suc n) d i (λ h. e))
  | inl e ↦
      let full : (d i).status ≡ pos 2 = (==ℤ_iff (d i).status (pos 2)).0 e in
      let d' = update d i (sending (d i)) in
      let next_full = (d' (suc i)).status ==ℤ pos 2 in
      let fol = follows (d' i).page_no (d' (suc i)).page_no in
      let rest = flush_scan-Scanned n d' (suc i) in
      elim (Bool-cases (n == 0 || not fol && next_full)) [
        | inl s ↦ rw (e, s) (one-Scanned n d i full)
        | inr s ↦ rw (e, s) (cons-Scanned n d i full _ _ rest (next n d i _ _ rest s))
      ]
]
