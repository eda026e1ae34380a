-- ===== src/Outgoing/Put.antt =====
-- A page that is put into its slot is seen by readers, and no other page is lost.
use comex.Base.{
  ℕ, ◌%◌, ◌<◌, ◌≡◌, ◌≢◌, sym, ap, ◌∙◌, inl, inr, not, ◌&&◌, Bool-cases, Option, ◌==◌, ==_iff,
  update_self, update_ne, arith,
}
use comex.Base.Int.{minus_one}
use comex.WriteOut.{Desc, Ring, Verbs}
use comex.WriteOut.Flush.{IsOrdered, IsAccepted}
use comex.WriteOut.View.{
  Waits, Scan, hit, miss, read_from_buffer-Scan, IsUnique, view, view-Waits, view-held,
  flush_buff-view,
}
use comex.Outgoing.{flush, fill_slot, put_page}

module _ {ℓ κ} {A : Type ℓ} {M : Type κ} (verbs : Verbs A M) (total_write_out : ℕ) (r : Ring A)
    (node_id page_no : ℕ) (old_page : A) where
  abbrev put_ring : Ring A
  put_ring = fill_slot verbs total_write_out r node_id page_no old_page

  fill_slot-here : Waits put_ring r.tail page_no × (put_ring.contents r.tail ≡ old_page)
  unfolding fill_slot
  fill_slot-here = (
    record {
      status = ap (λ (d : Desc). d.status) (update_self _ r.tail _);
      page = ap (λ (d : Desc). d.page_no) (update_self _ r.tail _);
    },
    update_self r.contents r.tail old_page,
  )

  put_ring_head : r.head < total_write_out → put_ring.head < total_write_out
  unfolding fill_slot
  put_ring_head h = h

  fill_slot-elsewhere :
      (j : ℕ) → j ≢ r.tail → (put_ring.buff j ≡ r.buff j) × (put_ring.contents j ≡ r.contents j)
  unfolding fill_slot
  fill_slot-elsewhere j d = (
    update_ne _ r.tail _ j d ∙ update_ne r.buff r.tail _ j d,
    update_ne r.contents r.tail old_page j d,
  )

  carried : (s s' : Ring A) (j p : ℕ) → s'.buff j ≡ s.buff j → Waits s j p → Waits s' j p
  carried s s' j p e w = record {
    status = ap (λ d. d.status) e ∙ w.status;
    page = ap (λ d. d.page_no) e ∙ w.page;
  }

  put_ring-Waits :
      (j p : ℕ)
      → (r.buff r.tail).status ≡ minus_one
      → Waits r j p
      → Waits put_ring j p × (put_ring.contents j ≡ r.contents j)
  put_ring-Waits j p e w = elim (Bool-cases (j == r.tail)) [
    | inl t ↦ absurd (ground (arith, e, rw ((==_iff j r.tail).0 t) at w.status))
    | inr f ↦
        let same = fill_slot-elsewhere j (λ x. ground arith) in
        (carried r put_ring j p same.0 w, same.1)
  ]

  Waits-put_ring : (j p : ℕ) → p ≢ page_no → Waits put_ring j p → Waits r j p
  Waits-put_ring j p n w = elim (Bool-cases (j == r.tail)) [
    | inl t ↦
        absurd (ground (arith, n, (fill_slot-here.0).page, rw ((==_iff j r.tail).0 t) at w.page))
    | inr f ↦ carried put_ring r j p (sym (fill_slot-elsewhere j (λ x. ground arith)).0) w
  ]

  module _ (empty : (r.buff r.tail).status ≡ minus_one) (within : r.tail < total_write_out)
      (u : IsUnique total_write_out r)
      (fresh : (j : ℕ) → j < total_write_out → ¬ Waits r j page_no) where
    put_ring-IsUnique : IsUnique total_write_out put_ring
    put_ring-IsUnique i j p x y v w = elim (Bool-cases (p == page_no)) [
      | inr f ↦
          let n : p ≢ page_no = λ e. ground arith in
          u i j p x y (Waits-put_ring i p n v) (Waits-put_ring j p n w)
      | inl t ↦
          let e : p ≡ page_no = (==_iff p page_no).0 t in
          at_tail i x (rw e at v) ∙ sym (at_tail j y (rw e at w))
    ]
      where
        at_tail : (i : ℕ) → i < total_write_out → Waits put_ring i page_no → i ≡ r.tail
        at_tail i x v = elim (Bool-cases (i == r.tail)) [
          | inl t ↦ (==_iff i r.tail).0 t
          | inr f ↦ absurd (
              fresh i x (
                carried put_ring r i page_no (sym (fill_slot-elsewhere i (λ e. ground arith)).0) v))
        ]

    put_view-here : (m : M) → view verbs total_write_out (m, put_ring) page_no ≡ old_page
    put_view-here m =
        view-Waits verbs total_write_out m put_ring r.tail page_no put_ring-IsUnique within
          fill_slot-here.0
        ∙ fill_slot-here.1

    put_view-elsewhere :
        (m : M) (q : ℕ)
        → q ≢ page_no
        → view verbs total_write_out (m, put_ring) q ≡ view verbs total_write_out (m, r) q
    put_view-elsewhere m q n = by-cases _ (read_from_buffer-Scan total_write_out r q)
      where
        by-cases :
            (o : Option A)
            → Scan r total_write_out 0 q o
            → view verbs total_write_out (m, put_ring) q ≡ view verbs total_write_out (m, r) q
        by-cases o (hit j x y w e) =
            let v = put_ring-Waits j q empty w in
            view-Waits verbs total_write_out m put_ring j q put_ring-IsUnique (omega arith) v.0
            ∙ v.1
            ∙ sym (view-Waits verbs total_write_out m r j q u (omega arith) w)
        by-cases o (miss e a) =
            view-held verbs total_write_out m put_ring q
              (λ j h w. a j (omega arith) (omega arith) (Waits-put_ring j q n w))
            ∙ sym (view-held verbs total_write_out m r q (λ j h. a j (omega arith) (omega arith)))

    -- If the slot at tail is empty, both ends are within the array, each page waits in one slot at
    -- most, this page in none, and neighbours in the filled ring for pages that pass the test of the
    -- loop are for pages of one 1024-page group, and do_write returns 0 for every run of full slots for consecutive pages from head on, then after the page is put readers see it, they see every other
    -- page as before, and each page waits in one slot at most, also where the ring is flushed.
    pub put_page-view :
        (m : M)
        → r.head < total_write_out
        → IsOrdered verbs total_write_out m put_ring
        → IsAccepted verbs total_write_out m put_ring
        → let out = put_page verbs total_write_out (m, r) node_id page_no old_page in
          (view verbs total_write_out out page_no ≡ old_page)
          × ((q : ℕ)
              → q ≢ page_no
              → view verbs total_write_out out q ≡ view verbs total_write_out (m, r) q)
          × IsUnique total_write_out out.1
    unfolding put_page
    put_page-view m h ord ok = elim (Bool-cases (r.tail % flush == 0 && not (r.tail == 0))) [
      | inr f ↦ rw f (put_view-here m, put_view-elsewhere m, put_ring-IsUnique)
      | inl t ↦
          let flushed =
            flush_buff-view verbs total_write_out m put_ring (put_ring_head h) put_ring-IsUnique ord
              ok in
          rw t (
            flushed.0 page_no ∙ put_view-here m,
            λ q n. flushed.0 q ∙ put_view-elsewhere m q n,
            flushed.1,
          )
    ]
