-- ===== src/WriteOut/View.antt =====
-- What a reader of a node's page sees: the slot that the page waits in, else the other node's memory.
-- Flushing does not change it.
use comex.Base.{
  ℕ, zero, suc, ◌+◌, ◌≤◌, ◌<◌, ◌≡◌, refl, sym, ap, ◌∙◌, inl, inr, true, false, ◌&&◌, Bool-cases,
  Option, none, some, ltb, leb, ◌==◌, ==_iff, arith,
}
use comex.Base.Int.{pos, pos_part, ◌==ℤ◌, ==ℤ_iff}
use comex.WriteOut.{no_page, Ring, Verbs, buffer_scan, read_from_buffer, flush_buff}
use comex.WriteOut.Flush.{
  IsOrdered, Flushed, Sending, nothing, sending, refused, IsAccepted, IsRun, flush_buff-Flushed,
}

-- Slot `i` waits to be sent, for page `p`.
pub record Waits {ℓ} {A : Type ℓ} (r : Ring A) (i p : ℕ) : Type 0 where
  pub status : (r.buff i).status ≡ pos 2
  pub page : (r.buff i).page_no ≡ pos p

-- Either a slot waits with the page and its contents are copied, or none waits with it.
pub data Scan {ℓ} {A : Type ℓ} (r : Ring A) (n i p : ℕ) (out : Option A) : Type ℓ where
  hit : (j : ℕ) → i ≤ j → j < i + n → Waits r j p → out ≡ some (r.contents j) → Scan r n i p out
  miss : out ≡ none → ((j : ℕ) → i ≤ j → j < i + n → ¬ Waits r j p) → Scan r n i p out

Waits-test {ℓ} :
    {A : Type ℓ} (r : Ring A) (i p : ℕ)
    → (((r.buff i).page_no ==ℤ pos p) && ((r.buff i).status ==ℤ pos 2)) ≡ true
    → Waits r i p
Waits-test r i p t = record {
  status = (==ℤ_iff _ _).0 (ground arith);
  page = (==ℤ_iff _ _).0 (ground arith);
}

test-Waits {ℓ} :
    {A : Type ℓ} (r : Ring A) (i p : ℕ)
    → (((r.buff i).page_no ==ℤ pos p) && ((r.buff i).status ==ℤ pos 2)) ≡ false
    → ¬ Waits r i p
test-Waits r i p f w = ground (arith, f, (==ℤ_iff _ _).1 w.status, (==ℤ_iff _ _).1 w.page)

buffer_scan-Scan {ℓ} : {A : Type ℓ} (r : Ring A) (n i p : ℕ) → Scan r n i p (buffer_scan r n i p)
unfolding buffer_scan
buffer_scan-Scan r zero i p = miss refl (λ j x y. absurd (omega arith))
buffer_scan-Scan r (suc n) i p =
    elim (Bool-cases (((r.buff i).page_no ==ℤ pos p) && ((r.buff i).status ==ℤ pos 2))) [
      | inl t ↦ rw t (hit i (omega arith) (omega arith) (Waits-test r i p t) refl)
      | inr f ↦ rw f (later f (buffer_scan-Scan r n (i + 1) p))
    ]
  where
    later :
        (((r.buff i).page_no ==ℤ pos p) && ((r.buff i).status ==ℤ pos 2)) ≡ false
        → Scan r n (i + 1) p (buffer_scan r n (i + 1) p)
        → Scan r (suc n) i p (buffer_scan r n (i + 1) p)
    later f (hit j x y w e) = hit j (omega arith) (omega arith) w e
    later f (miss e a) = miss e (λ j x y w. elim (Bool-cases (j == i)) [
      | inl t ↦ test-Waits r i p f (rw ((==_iff j i).0 t) at w)
      | inr d ↦ a j (ground arith) (omega arith) w
    ])

pub read_from_buffer-Scan {ℓ} :
    {A : Type ℓ} (total_write_out : ℕ) (r : Ring A) (p : ℕ)
    → Scan r total_write_out 0 p (read_from_buffer total_write_out r p)
unfolding read_from_buffer
read_from_buffer-Scan total_write_out r p = buffer_scan-Scan r total_write_out 0 p

-- A page waits in one slot at most.
abbrev pub IsUnique {ℓ} : {A : Type ℓ} → ℕ → Ring A → Type 0
IsUnique total_write_out r =
    (i j p : ℕ) → i < total_write_out → j < total_write_out → Waits r i p → Waits r j p → i ≡ j

module _ {ℓ κ} {A : Type ℓ} {M : Type κ} (verbs : Verbs A M) (total_write_out : ℕ) where
  open verbs use {at}

  unfoldable pub view : M × Ring A → ℕ → A
  view (m, r) p = elim (read_from_buffer total_write_out r p) [ some a ↦ a | none ↦ at m p ]

  -- The view of a page that waits is its slot's contents, if it waits there only; of a page that does
  -- not wait, it is what the other node holds.
  pub view-Waits :
      (m : M) (r : Ring A) (i p : ℕ)
      → IsUnique total_write_out r
      → i < total_write_out
      → Waits r i p
      → view (m, r) p ≡ r.contents i
  unfolding view
  view-Waits m r i p u h w = by-cases _ (read_from_buffer-Scan total_write_out r p)
    where
      by-cases :
          (o : Option A)
          → Scan r total_write_out 0 p o
          → (elim o [ some a ↦ a | none ↦ at m p ]) ≡ r.contents i
      by-cases o (hit j x y v e) = rw (e, u j i p (omega arith) h v w) refl
      by-cases o (miss e a) = absurd (a i (omega arith) (omega arith) w)

  pub view-held :
      (m : M) (r : Ring A) (p : ℕ)
      → ((j : ℕ) → j < total_write_out → ¬ Waits r j p)
      → view (m, r) p ≡ at m p
  unfolding view
  view-held m r p n = by-cases _ (read_from_buffer-Scan total_write_out r p)
    where
      by-cases :
          (o : Option A)
          → Scan r total_write_out 0 p o
          → (elim o [ some a ↦ a | none ↦ at m p ]) ≡ at m p
      by-cases o (hit j x y v e) = absurd (n j (omega arith) v)
      by-cases o (miss e a) = rw e refl

  no_page-not_waiting : (r : Ring A) (j p : ℕ) → r.buff j ≡ no_page → ¬ Waits r j p
  no_page-not_waiting r j p e w = ground (arith, ap (λ d. d.status) e, w.status)

  module _ (m : M) (r : Ring A) (count : ℕ) (out : M × Ring A)
      (f : Flushed verbs total_write_out m r count out) where
    -- A slot that still waits has waited before, outside the run that was sent.
    still-Waits :
        (j p : ℕ)
        → Waits out.1 j p
        → Waits r j p × ((leb r.head j && ltb j (r.head + count)) ≡ false)
    still-Waits j p w = elim (Bool-cases (leb r.head j && ltb j (r.head + count))) [
      | inl t ↦ absurd (no_page-not_waiting out.1 j p (f.emptied j (ground arith) (ground arith)) w)
      | inr n ↦ (same (f.kept j n), n)
    ]
      where
        same : (out.1).buff j ≡ r.buff j → Waits r j p
        same e = record {
          status = ap (λ d. d.status) (sym e) ∙ w.status;
          page = ap (λ d. d.page_no) (sym e) ∙ w.page;
        }

    flushed-IsUnique : IsUnique total_write_out r → IsUnique total_write_out out.1
    flushed-IsUnique u i j p x y v w = u i j p x y (still-Waits i p v).0 (still-Waits j p w).0

    kept-Waits :
        (j p : ℕ) → (leb r.head j && ltb j (r.head + count)) ≡ false → Waits r j p → Waits out.1 j p
    kept-Waits j p n w =
        let e = f.kept j n in
        record { status = ap (λ d. d.status) e ∙ w.status; page = ap (λ d. d.page_no) e ∙ w.page }

    flushed_view :
        IsUnique total_write_out r
        → IsOrdered verbs total_write_out m r
        → (p : ℕ) → view out p ≡ view (m, r) p
    flushed_view u ord p = by-cases _ (read_from_buffer-Scan total_write_out r p)
      where
        held : ((j : ℕ) → j < total_write_out → ¬ Waits out.1 j p) → view out p ≡ at out.0 p
        held n = view-held out.0 out.1 p n

        true-not_false : true ≡ false → ⊥
        true-not_false e = cc

        by-cases : (o : Option A) → Scan r total_write_out 0 p o → view out p ≡ view (m, r) p
        by-cases o (miss e a) =
            held (λ j h w. a j (omega arith) (omega arith) (still-Waits j p w).0)
            ∙ f.untouched p (λ j x y g.
              a j (omega arith) (omega (arith, f.within))
                (record { status = f.full j x y; page = ord.numbered j (f.full j x y) ∙ ap pos g }))
            ∙ sym (view-held m r p (λ j h. a j (omega arith) (omega arith)))
        by-cases o (hit j x y w e) = elim (Bool-cases (leb r.head j && ltb j (r.head + count))) [
          | inr n ↦
              view-Waits out.0 out.1 j p (flushed-IsUnique u) (omega arith) (kept-Waits j p n w)
              ∙ ap (λ c. c j) f.contents_kept
              ∙ sym (view-Waits m r j p u (omega arith) w)
          | inl t ↦
              let gone : (i : ℕ) → i < total_write_out → ¬ Waits out.1 i p = λ i h v.
                let old = still-Waits i p v in
                let same = u i j p h (omega arith) old.0 w in
                true-not_false
                  (sym t ∙ ap (λ k. leb r.head k && ltb k (r.head + count)) (sym same) ∙ old.1) in
              held gone
              ∙ ap (at out.0) (sym (ap pos_part w.page))
              ∙ f.delivered j (ground arith) (ground arith)
              ∙ sym (view-Waits m r j p u (omega arith) w)
        ]

  -- If do_write returns 0 the run has been sent, if there was one.
  flushed :
      (m : M) (r : Ring A) (out : M × Ring A)
      → IsAccepted verbs total_write_out m r
      → Sending verbs total_write_out m r out
      → (count : ℕ) × Flushed verbs total_write_out m r count out
  flushed m r out ok (nothing e f) = (0, f)
  flushed m r out ok (sending count h t f) = (count, f)
  flushed m r out ok (refused count h n f) =
      let run : IsRun verbs total_write_out m r count = record {
        full = f.full;
        within = f.within;
        in_order = f.in_order;
      } in
      absurd (ground (arith, n, ok count h run))

  -- If head is within the array, each page waits in one slot at most, do_write returns 0 for every run of full slots for consecutive pages from head on, and neighbours for pages that
  -- pass the test of the loop are for pages of one 1024-page group, then COMEX_flush_buff changes no
  -- page's view, and each page still waits in one slot at most.
  pub flush_buff-view :
      (m : M) (r : Ring A)
      → r.head < total_write_out
      → IsUnique total_write_out r
      → IsOrdered verbs total_write_out m r
      → IsAccepted verbs total_write_out m r
      → ((p : ℕ) → view (flush_buff verbs total_write_out m r) p ≡ view (m, r) p)
        × IsUnique total_write_out (flush_buff verbs total_write_out m r).1
  flush_buff-view m r h u ord ok =
      let f = flushed m r _ ok (flush_buff-Flushed verbs total_write_out m r h ord) in
      (flushed_view m r f.0 _ f.1 u ord, flushed-IsUnique m r f.0 _ f.1 u)
