-- ===== src/ReadIn/Coherent.antt =====
-- A page that is read is the one that the other node holds, as long as the read-in buffers are
-- coherent, and what keeps them so.
use comex.Base.{
  ℕ, ◌+◌, ◌-◌, ◌*◌, ◌%◌, ◌<◌, ◌≡◌, ◌≢◌, refl, sym, ap, ap₂, ◌∙◌, ◌⊎◌, inl, inr, Bool, true, false,
  ◌&&◌, Bool-cases, Option, none, some, ltb, leb, ◌==◌, ==_iff, update, update_self, update_ne,
  arith,
}
use comex.Base.Int.{pos, ◌==ℤ◌, ==ℤ_iff}
use comex.WriteOut.{Desc, no_page}
use comex.ReadIn.{
  Cache, Reads, filled, holding, receive, pre_f_floor, pre_f_size, read_from_prefetch,
  void_prefetch, read_from_remote, read_remote_page,
}
use comex.ReadIn.Window.{fill-in, fill-out, receive-in, receive-out, window_slots, window_self}

-- A slot marked as full holds the page that its descriptor names, which is one of the slot's pages.
pub record IsCoherent {ℓ} {A : Type ℓ} (total_read_in : ℕ) (held : ℕ → ℕ → A) (c : Cache A)
    : Type ℓ where
  pub slot : (j n p : ℕ) → c.buff j ≡ holding n p → p % total_read_in ≡ j
  pub page : (j n p : ℕ) → c.buff j ≡ holding n p → c.contents j ≡ held n p

-- A descriptor that passes the three tests of COMEX_read_from_preFetch
tests-holding :
    (d : Desc) (n p : ℕ)
    → ((d.status ==ℤ pos 2) && (d.node_id ==ℤ pos n) && (d.page_no ==ℤ pos p)) ≡ true
    → d ≡ holding n p
tests-holding d n p h =
    same ((==ℤ_iff _ _).0 (ground arith)) ((==ℤ_iff _ _).0 (ground arith))
      ((==ℤ_iff _ _).0 (ground arith))
  where
    same : d.status ≡ pos 2 → d.node_id ≡ pos n → d.page_no ≡ pos p → d ≡ holding n p
    same x y z = rw (← x, ← y, ← z) refl

holding-inj : (n m p q : ℕ) → holding n p ≡ holding m q → (n ≡ m) × (p ≡ q)
holding-inj n m p q e =
    (ground (arith, ap (λ d. d.node_id) e), ground (arith, ap (λ d. d.page_no) e))

module _ {ℓ} {A : Type ℓ} (t : ℕ) (ht : 0 < t) (reads : Reads A) (c : Cache A)
    (coherent : IsCoherent (t * 16) (reads.held) c) (n p : ℕ) where
  abbrev slot_now : ℕ
  slot_now = p % (t * 16)

  abbrev flr : ℕ
  flr = pre_f_floor slot_now

  -- The result of do_read for the window
  abbrev is_read : Bool
  is_read = reads.accepts n (pre_f_floor p) flr pre_f_size

  remote_page : is_read ≡ true → (read_from_remote (t * 16) reads c n p).0 ≡ reads.held n p
  unfolding read_from_remote
  remote_page ok =
      let e : pre_f_floor p + p % 16 ≡ p = omega arith in
      rw ok (
        ap (receive c.contents flr pre_f_size (reads.fetch n (pre_f_floor p) pre_f_size))
          (window_self t p ht)
        ∙ receive-in c.contents flr pre_f_size _ (p % 16) (omega arith)
        ∙ reads.fetch_is n (pre_f_floor p) pre_f_size (p % 16) (omega arith)
        ∙ ap (reads.held n) e)

  abbrev after : Cache A
  after = (read_from_remote (t * 16) reads c n p).1

  inside :
      is_read ≡ true
      → (i : ℕ) → i < 16
      → (after.buff (flr + i) ≡ filled n (pre_f_floor p) i)
        × (after.contents (flr + i) ≡ reads.held n (pre_f_floor p + i))
  unfolding read_from_remote
  inside ok i h = rw ok (
    fill-in _ flr pre_f_size 0 (filled n (pre_f_floor p)) i (omega arith) (omega arith),
    receive-in c.contents flr pre_f_size _ i h ∙ reads.fetch_is n (pre_f_floor p) pre_f_size i h,
  )

  outside :
      is_read ≡ true
      → (j : ℕ) → (leb flr j && ltb j (flr + 16)) ≡ false
      → (after.buff j ≡ c.buff j) × (after.contents j ≡ c.contents j)
  unfolding read_from_remote
  outside ok j h = rw ok (
    fill-out _ flr pre_f_size 0 (filled n (pre_f_floor p)) j (ground arith)
        ∙ fill-out c.buff flr pre_f_size 0 (λ i. no_page) j (ground arith),
    receive-out c.contents flr pre_f_size _ j h,
  )

  after_slot :
      is_read ≡ true
      → (j m q : ℕ) → after.buff j ≡ holding m q
      → (q % (t * 16) ≡ j) × (after.contents j ≡ reads.held m q)
  after_slot ok j m q e = elim (Bool-cases (leb flr j && ltb j (flr + 16))) [
    | inr f ↦
        let o = outside ok j f in
        let e' = sym o.0 ∙ e in (coherent.slot j m q e', o.1 ∙ coherent.page j m q e')
    | inl h ↦ within (j - flr) (ground arith) (ground arith)
  ]
    where
      within :
          (i : ℕ) → i < 16 → j ≡ flr + i → (q % (t * 16) ≡ j) × (after.contents j ≡ reads.held m q)
      within i small here =
          let w = inside ok i small in
          let same =
            holding-inj n m (pre_f_floor p + i) q (sym w.0 ∙ ap (after.buff) (sym here) ∙ e) in
          rw (here, ← same.0, ← same.1) (window_slots t p i ht small, w.1)

  after-IsCoherent : is_read ≡ true → IsCoherent (t * 16) (reads.held) after
  after-IsCoherent ok = record {
    slot = λ j m q e. (after_slot ok j m q e).0;
    page = λ j m q e. (after_slot ok j m q e).1;
  }

  -- What COMEX_read_from_preFetch copies, if it copies.
  prefetched : (a : A) → read_from_prefetch (t * 16) c n p ≡ some a → a ≡ reads.held n p
  unfolding read_from_prefetch
  prefetched a h =
      let d = c.buff slot_now in
      elim (Bool-cases ((d.status ==ℤ pos 2) && (d.node_id ==ℤ pos n) && (d.page_no ==ℤ pos p))) [
        | inl y ↦
            let copied : some (c.contents slot_now) ≡ some a = rw y at h in
            let same : a ≡ c.contents slot_now = cc in
            same ∙ coherent.page slot_now n p (tests-holding d n p y)
        | inr y ↦ let nothing : none ≡ some a = rw y at h in absurd (cc)
      ]

  -- The slot of the page after a window has been marked
  marked_here : after.buff slot_now ≡ holding n p
  unfolding read_from_remote
  marked_here =
      let e : pre_f_floor p + p % 16 ≡ p = omega arith in
      ap (after.buff) (window_self t p ht)
      ∙ fill-in _ flr pre_f_size 0 (filled n (pre_f_floor p)) (p % 16) (omega arith) (omega arith)
      ∙ ap (holding n) e

  stale_contents :
      is_read ≡ false
      → (after.contents ≡ c.contents)
        × ((read_from_remote (t * 16) reads c n p).0 ≡ c.contents slot_now)
  unfolding read_from_remote
  stale_contents f = rw f (refl, refl)

  -- What a read comes to: the page that the other node holds, prefetched or read by a transfer, and
  -- buffers that are coherent; or, if the page is not prefetched and do_read does not return 0, what
  -- the slot has held before, and a slot that is marked as holding the page nevertheless.
  pub data ReadPage (out : A × Cache A) : Type ℓ where
    prefetched_page :
        (a : A)
        → read_from_prefetch (t * 16) c n p ≡ some a
        → out.0 ≡ reads.held n p
        → out.1 ≡ c
        → ReadPage out
    read_page :
        read_from_prefetch (t * 16) c n p ≡ none
        → is_read ≡ true
        → out.0 ≡ reads.held n p
        → IsCoherent (t * 16) (reads.held) out.1
        → ReadPage out
    stale_page :
        read_from_prefetch (t * 16) c n p ≡ none
        → is_read ≡ false
        → out.0 ≡ c.contents slot_now
        → (out.1).contents ≡ c.contents
        → (out.1).buff slot_now ≡ holding n p
        → ReadPage out

  -- If the number of read-in slots is a multiple of 16 and the read-in buffers are coherent, then a
  -- read that finds no waiting write gets the page that the other node holds if the page was
  -- prefetched, with the buffers as they are, or if do_read returns 0 for its window, with buffers that stay coherent. If it was not
  -- prefetched and do_read does not return 0, the read gets what the page's slot has held before, and
  -- the slot is marked as holding the page all the same.
  pub read_remote_page-held : ReadPage (read_remote_page (t * 16) reads c n p)
  unfolding read_remote_page
  read_remote_page-held = by-cases (read_from_prefetch (t * 16) c n p) refl
    where
      by-cases :
          (o : Option A)
          → read_from_prefetch (t * 16) c n p ≡ o
          → ReadPage (read_remote_page (t * 16) reads c n p)
      by-cases none e = elim (Bool-cases is_read) [
        | inl ok ↦ rw (e, read_remote_page) (read_page e ok (remote_page ok) (after-IsCoherent ok))
        | inr f ↦
            let s = stale_contents f in
            rw (e, read_remote_page) (stale_page e f s.1 s.0 marked_here)
      ]
      by-cases (some a) e = rw (e, read_remote_page) (prefetched_page a e (prefetched a e) refl)

other_page : (m n q p : ℕ) → ((m ≡ n) → (q ≡ p) → ⊥) → (m ≢ n) ⊎ (q ≢ p)
other_page m n q p h = elim (Bool-cases (m == n)) [
  | inr f ↦ inl (λ e. ground arith)
  | inl t ↦ inr (λ e. h ((==_iff m n).0 t) e)
]

holding-tests :
    (d : Desc) (n p : ℕ) → d ≡ holding n p → ((d.node_id ==ℤ pos n) && (d.page_no ==ℤ pos p)) ≡ true
holding-tests d n p e = ground (arith, ap (λ d. d.node_id) e, ap (λ d. d.page_no) e)

pub no_page-not_holding : (m q : ℕ) → no_page ≡ holding m q → ⊥
no_page-not_holding m q e = ground (arith, ap (λ d. d.status) e)

-- After COMEX_void_preFetch a full slot is one that was full before, for another page.
voided {ℓ} :
    {A : Type ℓ} (total_read_in : ℕ) (c : Cache A) (n p : ℕ)
    → ((j m q : ℕ) → c.buff j ≡ holding m q → q % total_read_in ≡ j)
    → (j m q : ℕ) → (void_prefetch total_read_in c n p).buff j ≡ holding m q
    → (c.buff j ≡ holding m q)
      × ((m ≢ n) ⊎ (q ≢ p))
      × ((void_prefetch total_read_in c n p).contents j ≡ c.contents j)
unfolding void_prefetch
voided total_read_in c n p slot j m q e =
    let idx = p % total_read_in in
    let d = c.buff idx in
    elim (Bool-cases ((d.node_id ==ℤ pos n) && (d.page_no ==ℤ pos p))) [
      | inr f ↦
          let same : c.buff j ≡ holding m q = rw f at e in
          rw f (
            same,
            other_page m n q p
                (λ x y. true-not_false (sym (holding-tests d n p (found x y same)) ∙ f)),
            refl,
          )
      | inl t ↦
          let e' : update c.buff idx no_page j ≡ holding m q = rw t at e in
          let there : j ≢ idx = λ h.
            no_page-not_holding m q (
              sym (update_self c.buff idx no_page) ∙ ap (update c.buff idx no_page) (sym h) ∙ e') in
          let same = sym (update_ne c.buff idx no_page j there) ∙ e' in
          rw t (
            same,
            other_page m n q p
                (λ x y. there (sym (slot j m q same) ∙ ap (λ z. z % total_read_in) y)),
            refl,
          )
    ]
  where
    true-not_false : true ≡ false → ⊥
    true-not_false e = cc

    found : m ≡ n → q ≡ p → c.buff j ≡ holding m q → c.buff (p % total_read_in) ≡ holding n p
    found x y same =
        ap c.buff (ap (λ z. z % total_read_in) (sym y) ∙ slot j m q same) ∙ same ∙ ap₂ holding x y

-- If the other nodes' pages change at one page only, voiding it keeps the read-in buffers coherent.
pub void_prefetch-IsCoherent {ℓ} :
    {A : Type ℓ} (total_read_in : ℕ) (held held' : ℕ → ℕ → A) (c : Cache A) (n p : ℕ)
    → IsCoherent total_read_in held c
    → ((m q : ℕ) → (m ≢ n) ⊎ (q ≢ p) → held' m q ≡ held m q)
    → IsCoherent total_read_in held' (void_prefetch total_read_in c n p)
unfolding void_prefetch
void_prefetch-IsCoherent total_read_in held held' c n p k h = record {
  slot = λ j m q e. k.slot j m q (voided total_read_in c n p k.slot j m q e).0;
  page = λ j m q e.
      let w = voided total_read_in c n p k.slot j m q e in w.2 ∙ k.page j m q w.0 ∙ sym (h m q w.1);
}
