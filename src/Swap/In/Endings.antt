-- ===== src/Swap/In/Endings.antt =====
-- The ways in which the loop of read_swap_cache_async ends, and what the references to pages come to.
use comex.Base.Errno.{enomem, eexist}
use comex.Base.{
  ℕ, ◌≡◌, ◌≢◌, refl, sym, ap, ◌∙◌, ◌⊎◌, update_self, update_ne, inl, inr, false, Bool-cases, List,
  ◌∷◌, none, some, ◌==◌, ==_iff, if◌then◌else◌, update, All, arith,
}
use comex.Base.Int.{ℤ, pos, ◌+ℤ◌, ◌-ℤ◌, int_laws}
use comex.Swap.{SwapPage, SwapCache, add_to_cache, page_cache_release}
use comex.Swap.Consistent.{find, IsConsistent}
use comex.Swap.Flags.{update-IsConsistent}
use comex.Swap.In.{Round, Ending, found, fresh, null, more_rounds, drop_new_page}
use comex.Swap.Out.{Kernel}

module _ {μ ν} {T : Type μ} {K : Type ν} (kernel : Kernel T K) where
  open kernel use {radix, space, swapcache_free}

  abbrev pub SameLookups : SwapCache T → SwapCache T → Type 0
  SameLookups c c' = (e : ℕ) → find radix space c'.tree e ≡ find radix space c.tree e

  -- A page that is new is not in the swap cache.
  abbrev pub IsNew : SwapCache T → ℕ → Type 0
  IsNew c page = page ≢ 0 → (c.page page).swap_cache ≡ false

  -- One at page `p`, and one at page `w` if `w` is not NULL
  abbrev pub one_at : (p q : ℕ) → ℕ
  one_at p q = if q == p then 1 else 0

  abbrev pub one_dropped : (w q : ℕ) → ℕ
  one_dropped w q = if w == 0 then 0 else one_at w q

  abbrev pub SameCounts : SwapCache T → SwapCache T → Type 0
  SameCounts c c' = (q : ℕ) → (c'.page q).count ≡ (c.page q).count

  -- A round of which `Q` holds
  pub data Has {κ} (Q : Round → Type κ) : List Round → Type κ where
    in_first : (r : Round) (rs : List Round) → Q r → Has Q (r ∷ rs)
    in_rest : (r : Round) (rs : List Round) → Has Q rs → Has Q (r ∷ rs)

  -- The new page that the loop has at its end: the one that it starts with, or else one that a round has
  -- allocated.
  abbrev pub IsHeld : List Round → (new_page w : ℕ) → Type 0
  IsHeld rounds new_page w =
      (w ≡ new_page) ⊎ ((new_page ≡ 0) × Has (λ (r : Round). w ≡ r.alloc) rounds)

  -- Why a round ends the loop with NULL
  pub data EndsNull (entry : ℕ) (r : Round) : Type μ where
    no_page : r.alloc ≡ 0 → EndsNull entry r
    no_preload : r.preload ≢ pos 0 → EndsNull entry r
    not_prepared : r.prepare ≢ pos 0 → r.prepare ≢ eexist → EndsNull entry r
    no_node :
        (d : SwapCache T) (page : ℕ)
        → (add_to_cache radix space d page entry).1 ≡ enomem
        → EndsNull entry r

  -- A round after which there is another one
  pub record IsRetried (r : Round) : Type 0 where
    pub loaded : r.preload ≡ pos 0
    pub tried : (r.prepare ≡ eexist) ⊎ (r.prepare ≡ pos 0)

  -- The loop ends with a page that was in the swap cache, which gets a reference, and gives its new page
  -- back; with its new page, which it has put there with a reference; or with NULL, for a reason, and gives
  -- its new page back; or its rounds do not suffice, being retried all. No other lookup and no other
  -- count of references changes.
  pub data Ended (rounds : List Round) (c : SwapCache T) (new_page entry : ℕ)
      : (SwapCache T × K) × Ending → Type (μ ⊔ ν) where
    was_found :
        (p w : ℕ) (c' : SwapCache T) (k' : K)
        → find radix space c.tree entry ≡ some p
        → SameLookups c c'
        → IsHeld rounds new_page w
        → ((q : ℕ)
            → (c'.page q).count +ℤ pos (one_dropped w q) ≡ (c.page q).count +ℤ pos (one_at p q))
        → Ended rounds c new_page entry ((c', k'), found p)
    was_read :
        (p : ℕ) (c' : SwapCache T) (k' : K)
        → find radix space c.tree entry ≡ none
        → find radix space c'.tree entry ≡ some p
        → ((e : ℕ) → e ≢ entry → find radix space c'.tree e ≡ find radix space c.tree e)
        → IsHeld rounds new_page p
        → ((q : ℕ) → (c'.page q).count ≡ (c.page q).count +ℤ pos (one_at p q))
        → Ended rounds c new_page entry ((c', k'), fresh p)
    gave_up :
        (w : ℕ) (c' : SwapCache T) (k' : K)
        → find radix space c.tree entry ≡ none
        → SameLookups c c'
        → IsHeld rounds new_page w
        → ((q : ℕ) → (c'.page q).count +ℤ pos (one_dropped w q) ≡ (c.page q).count)
        → Has (EndsNull entry) rounds
        → Ended rounds c new_page entry ((c', k'), null)
    unfinished :
        (c' : SwapCache T) (k' : K)
        → SameLookups c c'
        → SameCounts c c'
        → All IsRetried rounds
        → Ended rounds c new_page entry ((c', k'), more_rounds)

  abbrev pub Fine :
      List Round → SwapCache T → (new_page entry : ℕ) → (SwapCache T × K) × Ending → Type (μ ⊔ ν)
  Fine rounds c new_page entry out =
      Ended rounds c new_page entry out × IsConsistent radix space (out.0).0

  pub add_none : (x : ℤ) → x +ℤ pos 0 ≡ x
  add_none x = grind int_laws

  -- The counts after an entry has been updated with one reference more, or less
  pub raised :
      (f : ℕ → SwapPage) (p : ℕ) (v : SwapPage)
      → v.count ≡ (f p).count +ℤ pos 1
      → (q : ℕ) → (update f p v q).count ≡ (f q).count +ℤ pos (one_at p q)
  raised f p v h q = elim (Bool-cases (q == p)) [
    | inl t ↦
        let e : q ≡ p = (==_iff q p).0 t in
        simp t (
          ap (λ x. (update f p v x).count) e
          ∙ ap (λ x. x.count) (update_self f p v)
          ∙ h
          ∙ ap (λ x. (f x).count +ℤ pos 1) (sym e))
    | inr n ↦ simp n (
        ap (λ x. x.count) (update_ne f p v q (λ e. ground (arith, n, (==_iff q p).1 e)))
        ∙ sym (add_none _))
  ]

  pub lowered :
      (f : ℕ → SwapPage) (p : ℕ) (v : SwapPage)
      → v.count ≡ (f p).count -ℤ pos 1
      → (q : ℕ) → (update f p v q).count +ℤ pos (one_at p q) ≡ (f q).count
  lowered f p v h q = elim (Bool-cases (q == p)) [
    | inl t ↦
        let e : q ≡ p = (==_iff q p).0 t in
        simp t (
          ap (λ x. x +ℤ pos 1)
            (ap (λ x. (update f p v x).count) e ∙ ap (λ x. x.count) (update_self f p v) ∙ h)
          ∙ cancel (f p).count
          ∙ ap (λ x. (f x).count) (sym e))
    | inr n ↦ simp n (
        add_none _
        ∙ ap (λ x. x.count) (update_ne f p v q (λ e. ground (arith, n, (==_iff q p).1 e))))
  ]
    where
      cancel : (x : ℤ) → x -ℤ pos 1 +ℤ pos 1 ≡ x
      cancel x = grind int_laws

  pub kept :
      (f : ℕ → SwapPage) (p : ℕ) (v : SwapPage)
      → v.count ≡ (f p).count
      → (q : ℕ) → (update f p v q).count ≡ (f q).count
  kept f p v h q = elim (Bool-cases (q == p)) [
    | inl t ↦
        let e : q ≡ p = (==_iff q p).0 t in
        ap (λ x. (update f p v x).count) e
        ∙ ap (λ x. x.count) (update_self f p v)
        ∙ h
        ∙ ap (λ x. (f x).count) (sym e)
    | inr n ↦ ap (λ x. x.count) (update_ne f p v q (λ e. ground (arith, n, (==_iff q p).1 e)))
  ]

  pub dropped_count :
      (c : SwapCache T) (w q : ℕ)
      → ((drop_new_page kernel c w).page q).count +ℤ pos (one_dropped w q) ≡ (c.page q).count
  unfolding drop_new_page page_cache_release
  dropped_count c w q = elim (Bool-cases (w == 0)) [
    | inl t ↦ simp t (add_none _)
    | inr n ↦ simp n (lowered c.page w _ refl q)
  ]

  pub dropped :
      (c : SwapCache T) (new_page : ℕ)
      → IsConsistent radix space c
      → IsConsistent radix space (drop_new_page kernel c new_page)
        × SameLookups c (drop_new_page kernel c new_page)
  unfolding drop_new_page page_cache_release
  dropped c new_page i = elim (Bool-cases (new_page == 0)) [
    | inl t ↦ rw t (i, λ e. refl)
    | inr n ↦ rw n (update-IsConsistent radix space c new_page _ refl refl i, λ e. refl)
  ]

  -- What is held after a later round, for the rounds from this one on
  pub IsHeld-later :
      (r : Round) (rs : List Round) (new_page w : ℕ)
      → IsHeld rs (if new_page == 0 then r.alloc else new_page) w
      → IsHeld (r ∷ rs) new_page w
  IsHeld-later r rs new_page w h = elim (Bool-cases (new_page == 0)) [
    | inl t ↦ started ((==_iff new_page 0).0 t) (rw t at h)
    | inr n ↦ had (rw n at h)
  ]
    where
      started : new_page ≡ 0 → IsHeld rs r.alloc w → IsHeld (r ∷ rs) new_page w
      started z (inl e) = inr (z, in_first r rs e)
      started z (inr e) = inr (z, in_rest r rs e.1)

      had : IsHeld rs new_page w → IsHeld (r ∷ rs) new_page w
      had (inl e) = inl e
      had (inr e) = inr (e.0, in_rest r rs e.1)

  pub IsHeld-now :
      (r : Round) (rs : List Round) (new_page : ℕ)
      → IsHeld (r ∷ rs) new_page (if new_page == 0 then r.alloc else new_page)
  IsHeld-now r rs new_page = IsHeld-later r rs new_page _ (inl refl)

  -- An outcome of the later rounds, for a state with the same lookups and counts.
  pub onwards :
      (r : Round) (rs : List Round) (c c' : SwapCache T) (new_page entry : ℕ)
      (out : (SwapCache T × K) × Ending)
      → IsRetried r
      → SameLookups c c'
      → SameCounts c c'
      → Ended rs c' (if new_page == 0 then r.alloc else new_page) entry out
      → Ended (r ∷ rs) c new_page entry out
  onwards r rs c c' n entry out t s m (was_found p w d k h l g u) =
      was_found p w d k (sym (s entry) ∙ h) (λ e. l e ∙ s e) (IsHeld-later r rs n w g)
        (λ q. u q ∙ ap (λ x. x +ℤ pos (one_at p q)) (m q))
  onwards r rs c c' n entry out t s m (was_read p d k h l o g u) =
      was_read p d k (sym (s entry) ∙ h) l (λ e x. o e x ∙ s e) (IsHeld-later r rs n p g)
        (λ q. u q ∙ ap (λ x. x +ℤ pos (one_at p q)) (m q))
  onwards r rs c c' n entry out t s m (gave_up w d k h l g u z) =
      gave_up w d k (sym (s entry) ∙ h) (λ e. l e ∙ s e) (IsHeld-later r rs n w g) (λ q. u q ∙ m q)
        (in_rest r rs z)
  onwards r rs c c' n entry out t s m (unfinished d k l u a) =
      unfinished d k (λ e. l e ∙ s e) (λ q. u q ∙ m q) (t, a)
