-- ===== src/WriteOut/Flush.antt =====
-- COMEX_flush_buff delivers pages that are next to each other, and misdelivers others.
use native.Mathlib.Nat.{mod-eq_of_lt}
use comex.Base.{
  ℕ, zero, suc, ◌+◌, ◌-◌, ◌%◌, ◌/◌, ◌≤◌, ◌<◌, ◌≡◌, ◌≢◌, refl, sym, ap, ◌∙◌, ◌⊎◌, inl, inr, true,
  false, ◌&&◌, Bool-cases, ltb, leb, ◌==◌, update, update_self, update_ne, arith,
}
use comex.Base.Int.{pos, pos_part, ◌-ℤ◌, rem_ℤ}
use comex.WriteOut.{Desc, no_page, Ring, Verbs, free_buff, follows, flush_scan, send, flush_buff}
use comex.WriteOut.Scan.{Scanned, flush_scan-Scanned}

free_buff-out :
    (d : ℕ → Desc) (p c j : ℕ) → (leb p j && ltb j (p + c)) ≡ false → free_buff d p c j ≡ d j
unfolding free_buff
free_buff-out d p zero j x = refl
free_buff-out d p (suc c) j x =
    free_buff-out (update d p no_page) (p + 1) c j (ground arith)
    ∙ update_ne d p no_page j (ground arith)

free_buff-in : (d : ℕ → Desc) (p c j : ℕ) → p ≤ j → j < p + c → free_buff d p c j ≡ no_page
unfolding free_buff
free_buff-in d p zero j x y = absurd (omega arith)
free_buff-in d p (suc c) j x y = elim (Bool-cases (j == p)) [
  | inl t ↦
      let e : j ≡ p = ground arith in
      rw e (free_buff-out (update d p no_page) (p + 1) c p (ground arith) ∙ update_self d p no_page)
  | inr f ↦ free_buff-in (update d p no_page) (p + 1) c j (ground arith) (omega arith)
]

-- The test of the loop at page numbers: the offset in the 1024-page group is one more.
follows_lem : (p q : ℕ) → follows (pos p) (pos q) ≡ true → q % 1024 ≡ suc (p % 1024)
unfolding follows rem_ℤ ◌-ℤ◌
follows_lem p q h = ground arith

module _ {ℓ κ} {A : Type ℓ} {M : Type κ} (verbs : Verbs A M) (total_write_out : ℕ) (m : M)
    (r : Ring A) where
  open verbs use {at, accepts, write, write_here, write_elsewhere}

  -- The page that a slot is for.
  abbrev page_of : ℕ → ℕ
  page_of j = pos_part (r.buff j).page_no

  -- Full slots are for pages, and a slot whose page passes the test of the loop after the one
  -- before it is for a page of the same 1024-page group.
  pub record IsOrdered : Type 0 where
    pub numbered : (j : ℕ) → (r.buff j).status ≡ pos 2 → (r.buff j).page_no ≡ pos (page_of j)
    pub same_group :
        (j : ℕ)
        → (r.buff j).status ≡ pos 2
        → (r.buff (suc j)).status ≡ pos 2
        → page_of (suc j) % 1024 ≡ suc (page_of j % 1024)
        → page_of (suc j) / 1024 ≡ page_of j / 1024

  -- The slots from head on up to the `count`th have been full, their pages are now on the other
  -- node, which is unchanged otherwise, and they are empty.
  pub record Flushed (count : ℕ) (out : M × Ring A) : Type (ℓ ⊔ κ) where
    pub full : (j : ℕ) → r.head ≤ j → j < r.head + count → (r.buff j).status ≡ pos 2
    pub within : r.head + count ≤ total_write_out
    pub starts : (r.buff r.head).status ≡ pos 2 → 1 ≤ count
    pub delivered : (j : ℕ) → r.head ≤ j → j < r.head + count → at out.0 (page_of j) ≡ r.contents j
    pub untouched :
        (q : ℕ) → ((j : ℕ) → r.head ≤ j → j < r.head + count → page_of j ≢ q) → at out.0 q ≡ at m q
    pub emptied : (j : ℕ) → r.head ≤ j → j < r.head + count → (out.1).buff j ≡ no_page
    pub kept :
        (j : ℕ) → (leb r.head j && ltb j (r.head + count)) ≡ false → (out.1).buff j ≡ r.buff j
    pub moved : (out.1).head ≡ (r.head + count) % total_write_out
    pub contents_kept : (out.1).contents ≡ r.contents

  -- The slots from head on up to the `count`th have been full, but none of their pages has been sent:
  -- they are marked as being sent, with their pages and contents kept.
  pub record Refused (count : ℕ) (out : M × Ring A) : Type (ℓ ⊔ κ) where
    pub full : (j : ℕ) → r.head ≤ j → j < r.head + count → (r.buff j).status ≡ pos 2
    pub within : r.head + count ≤ total_write_out
    pub in_order : (i : ℕ) → i < count → page_of (r.head + i) ≡ page_of r.head + i
    pub unsent : out.0 ≡ m
    pub marked :
        (j : ℕ)
        → r.head ≤ j
        → j < r.head + count
        → (out.1).buff j ≡ record (r.buff j) { status = pos 3 }
    pub kept :
        (j : ℕ) → (leb r.head j && ltb j (r.head + count)) ≡ false → (out.1).buff j ≡ r.buff j
    pub moved : (out.1).head ≡ (r.head + count) % total_write_out
    pub contents_kept : (out.1).contents ≡ r.contents

  -- Whether the run is sent depends on the result of do_write for it; with nothing to send nothing is
  -- asked.
  pub data Sending (out : M × Ring A) : Type (ℓ ⊔ κ) where
    nothing : (r.buff r.head).status ≢ pos 2 → Flushed 0 out → Sending out
    sending :
        (count : ℕ)
        → 1 ≤ count
        → accepts m r.head (page_of r.head) count ≡ true
        → Flushed count out
        → Sending out
    refused :
        (count : ℕ)
        → 1 ≤ count
        → accepts m r.head (page_of r.head) count ≡ false
        → Refused count out
        → Sending out

  -- `count` full slots from head on, for pages with consecutive numbers
  pub record IsRun (count : ℕ) : Type 0 where
    pub full : (j : ℕ) → r.head ≤ j → j < r.head + count → (r.buff j).status ≡ pos 2
    pub within : r.head + count ≤ total_write_out
    pub in_order : (i : ℕ) → i < count → page_of (r.head + i) ≡ page_of r.head + i

  -- do_write returns 0 for every run of full slots for consecutive pages from head on.
  abbrev pub IsAccepted : Type 0
  IsAccepted =
      (count : ℕ) → 1 ≤ count → IsRun count → accepts m r.head (page_of r.head) count ≡ true

  -- do_write does not return 0 for a run that starts at head.
  abbrev pub IsRefused : Type 0
  IsRefused = (count : ℕ) → accepts m r.head (page_of r.head) count ≡ false

  module _ (o : IsOrdered) (d : ℕ → Desc) (k : ℕ)
      (s : Scanned (total_write_out - r.head) r.buff r.head d k) where
    consecutive : (i j : ℕ) → j ≡ r.head + i → i < k → page_of j ≡ page_of r.head + i
    consecutive zero j e h = let same : j ≡ r.head = omega arith in rw same (omega arith)
    consecutive (suc i) j e h =
        let before = r.head + i in
        let here : j ≡ suc before = omega arith in
        let full_before = s.full before (omega arith) (omega arith) in
        let full_here = s.full (suc before) (omega arith) (omega arith) in
        let f : page_of (suc before) % 1024 ≡ suc (page_of before % 1024) =
          follows_lem (page_of before) (page_of (suc before)) (
            rw (← o.numbered before full_before, ← o.numbered (suc before) full_here)
              (s.joined before (omega arith) (omega arith))) in
        let g = o.same_group before full_before full_here f in
        let p = consecutive i before refl (omega arith) in rw here (omega (arith, f, g, p))

    first_page : 1 ≤ k → pos_part (d r.head).page_no ≡ page_of r.head
    first_page h = ap (λ x. pos_part x.page_no) (s.marked r.head (omega arith) (omega arith))

    delivered_by :
        (j : ℕ)
        → r.head ≤ j
        → j < r.head + k
        → at (write m (pos_part (d r.head).page_no) k (λ i. r.contents (r.head + i))) (page_of j)
          ≡ r.contents j
    delivered_by j x y =
        let i = j - r.head in
        let e : j ≡ r.head + i = omega arith in
        rw (consecutive i j e (omega arith), first_page (omega arith))
          (write_here m (page_of r.head) k (λ i. r.contents (r.head + i)) i (omega arith)
            ∙ ap r.contents (sym e))

    untouched_by :
        (q : ℕ)
        → ((j : ℕ) → r.head ≤ j → j < r.head + k → page_of j ≢ q)
        → 1 ≤ k
        → at (write m (pos_part (d r.head).page_no) k (λ i. r.contents (r.head + i))) q ≡ at m q
    untouched_by q n h =
        rw (first_page h) (write_elsewhere m (page_of r.head) k _ q (outside (Bool-cases _)))
      where
        outside :
            let b = leb (page_of r.head) q && ltb q (page_of r.head + k) in
            (b ≡ true) ⊎ (b ≡ false) → b ≡ false
        outside (inr f) = f
        outside (inl t) =
            let i = q - page_of r.head in
            absurd (
              n (r.head + i) (omega arith) (ground arith)
                (consecutive i (r.head + i) refl (ground arith) ∙ ground arith))

    sent : 1 ≤ k → Sending (send verbs total_write_out m r d k)
    unfolding send
    sent h = elim (Bool-cases (accepts m r.head (page_of r.head) k)) [
      | inl t ↦
          let t' : accepts m r.head (pos_part (d r.head).page_no) k ≡ true = rw (first_page h) t in
          simp t' (
            sending k h t (record {
              full = s.full;
              within = omega (arith, s.fits);
              starts = λ e. h;
              delivered = delivered_by;
              untouched = λ q n. untouched_by q n h;
              emptied = λ j x y. free_buff-in d r.head k j x y;
              kept = λ j x. free_buff-out d r.head k j x ∙ s.same j x;
              moved = refl;
              contents_kept = refl;
            }))
      | inr f ↦
          let f' : accepts m r.head (pos_part (d r.head).page_no) k ≡ false = rw (first_page h) f in
          simp f' (
            refused k h f (record {
              full = s.full;
              within = omega (arith, s.fits);
              in_order = λ i l. consecutive i (r.head + i) refl l;
              unsent = refl;
              marked = s.marked;
              kept = s.same;
              moved = refl;
              contents_kept = refl;
            }))
    ]

  pub flush_buff-Flushed :
      r.head < total_write_out → IsOrdered → Sending (flush_buff verbs total_write_out m r)
  unfolding flush_buff
  flush_buff-Flushed h o =
      let out = flush_scan (total_write_out - r.head) r.buff r.head in
      let s = flush_scan-Scanned (total_write_out - r.head) r.buff r.head in
      elim (Bool-cases (out.1 == 0)) [
        | inl e ↦
            let none : out.1 ≡ 0 = ground arith in
            rw e (
              nothing (λ f. omega (arith, none, s.starts (omega arith) f))
                (record {
                  full = λ j x y. absurd (omega arith);
                  within = omega arith;
                  starts = λ f. omega (arith, none, s.starts (omega arith) f);
                  delivered = λ j x y. absurd (omega arith);
                  untouched = λ q n. refl;
                  emptied = λ j x y. absurd (omega arith);
                  kept = λ j x. refl;
                  moved = omega (arith, small);
                  contents_kept = refl;
                }))
        | inr e ↦ rw e (sent o out.0 out.1 s (ground arith))
      ]
    where
      small : (r.head + 0) % total_write_out ≡ r.head
      small = let e : r.head + 0 ≡ r.head = omega arith in rw e (mod-eq_of_lt h)
