-- ===== src/Transport/Pieces.antt =====
-- The pieces of a node's memory and the translation of offsets.
use comex.Base.{
  ℕ, zero, suc, ◌+◌, ◌*◌, ◌/◌, ◌%◌, ◌≤◌, ◌<◌, ◌≡◌, ◌≢◌, refl, ◌∙◌, ◌⊎◌, inl, inr, true, false,
  Bool-cases, ltb, ◌==◌, ==_iff, update, update_self, update_ne, arith,
}
use comex.Base.Int.{ℤ, pos, minus_one}
use comex.Layout.{page_size}
use comex.Transport.{clear_pages, alloc_pages, regis_bigspace, translate_useraddr, rping_bufsize}

clear_pages-out : (n i : ℕ) (p : ℕ → ℕ) (j : ℕ) → j < i → clear_pages n i p j ≡ p j
unfolding clear_pages
clear_pages-out zero i p j x = refl
clear_pages-out (suc n) i p j x =
    clear_pages-out n (i + 1) (update p i 0) j (omega arith) ∙ update_ne p i 0 j (λ e. omega arith)

clear_pages-in : (n i : ℕ) (p : ℕ → ℕ) (j : ℕ) → i ≤ j → j < i + n → clear_pages n i p j ≡ 0
unfolding clear_pages
clear_pages-in zero i p j x y = absurd (omega arith)
clear_pages-in (suc n) i p j x y = elim (Bool-cases (j == i)) [
  | inl t ↦
      let e : j ≡ i = ground arith in
      rw e (clear_pages-out n (i + 1) (update p i 0) i (omega arith) ∙ update_self p i 0)
  | inr f ↦ clear_pages-in n (i + 1) (update p i 0) j (ground arith) (omega arith)
]

-- How the allocation ends: all pieces are there, or piece `k` is the first that is not, and it and
-- the later ones are NULL.
pub data Registered (kmalloc : ℕ → ℕ) (n i : ℕ) (out : (ℕ → ℕ) × ℤ) : Type 0 where
  complete :
      out.1 ≡ pos 0
      → ((j : ℕ) → i ≤ j → j < i + n → (out.0 j ≡ kmalloc j) × (kmalloc j ≢ 0))
      → Registered kmalloc n i out
  partial :
      (k : ℕ)
      → out.1 ≡ minus_one
      → i ≤ k
      → k < i + n
      → kmalloc k ≡ 0
      → ((j : ℕ) → i ≤ j → j < k → (out.0 j ≡ kmalloc j) × (kmalloc j ≢ 0))
      → ((j : ℕ) → k ≤ j → j < i + n → out.0 j ≡ 0)
      → Registered kmalloc n i out

alloc_pages-below :
    (kmalloc : ℕ → ℕ) (n i : ℕ) (p : ℕ → ℕ) (j : ℕ) → j < i → (alloc_pages kmalloc n i p).0 j ≡ p j
unfolding alloc_pages
alloc_pages-below kmalloc zero i p j h = refl
alloc_pages-below kmalloc (suc n) i p j h =
    let here = update_ne p i (kmalloc i) j (λ e. omega arith) in
    elim (Bool-cases (kmalloc i == 0)) [
      | inl t ↦ rw t here
      | inr f ↦
          rw f (alloc_pages-below kmalloc n (i + 1) (update p i (kmalloc i)) j (omega arith) ∙ here)
    ]

alloc_pages-Registered :
    (kmalloc : ℕ → ℕ) (n i : ℕ) (p : ℕ → ℕ)
    → ((j : ℕ) → i ≤ j → j < i + n → p j ≡ 0)
    → Registered kmalloc n i (alloc_pages kmalloc n i p)
unfolding alloc_pages
alloc_pages-Registered kmalloc zero i p z = complete refl (λ j x y. absurd (omega arith))
alloc_pages-Registered kmalloc (suc n) i p z =
    let p' = update p i (kmalloc i) in
    elim (Bool-cases (kmalloc i == 0)) [
      | inl t ↦
          let none : kmalloc i ≡ 0 = ground arith in
          rw t (
            partial i refl (omega arith) (omega arith) none (λ j x y. absurd (omega arith))
              (λ j x y. elim (Bool-cases (j == i)) [
                | inl e ↦ rw ((==_iff j i).0 e) (update_self p i (kmalloc i) ∙ none)
                | inr d ↦ update_ne p i (kmalloc i) j (ground arith) ∙ z j x y
              ]))
      | inr f ↦ rw f (
          more (ground arith) (
            alloc_pages-Registered kmalloc n (i + 1) p' (λ j x y.
              update_ne p i (kmalloc i) j (λ e. omega arith) ∙ z j (omega arith) (omega arith))))
    ]
  where
    head : (alloc_pages kmalloc n (i + 1) (update p i (kmalloc i))).0 i ≡ kmalloc i
    head =
        alloc_pages-below kmalloc n (i + 1) (update p i (kmalloc i)) i (omega arith)
        ∙ update_self p i (kmalloc i)

    both :
        kmalloc i ≢ 0
        → (j : ℕ) → i ≤ j
        → (suc i ≤ j
            → ((alloc_pages kmalloc n (i + 1) (update p i (kmalloc i))).0 j ≡ kmalloc j)
              × (kmalloc j ≢ 0))
        → ((alloc_pages kmalloc n (i + 1) (update p i (kmalloc i))).0 j ≡ kmalloc j)
          × (kmalloc j ≢ 0)
    both nz j x later = elim (Bool-cases (j == i)) [
      | inl e ↦ rw ((==_iff j i).0 e) (head, nz)
      | inr d ↦ later (ground arith)
    ]

    more :
        kmalloc i ≢ 0
        → Registered kmalloc n (i + 1) (alloc_pages kmalloc n (i + 1) (update p i (kmalloc i)))
        → Registered kmalloc (suc n) i (alloc_pages kmalloc n (i + 1) (update p i (kmalloc i)))
    more nz (complete r a) =
        complete r (λ j x y. both nz j x (λ h. a j (omega arith) (omega arith)))
    more nz (partial k r l h z a b) =
        partial k r (omega arith) (omega arith) z
          (λ j x y. both nz j x (λ h. a j (omega arith) (omega arith)))
          (λ j x y. b j (omega arith) (omega arith))

-- regis_bigspace fills bufferpages up to the first allocation that fails, leaves the rest NULL, and
-- returns 0 exactly if none fails.
pub regis_bigspace-Registered :
    (kmalloc : ℕ → ℕ) (num_bigpages : ℕ) (memory : ℕ → ℕ)
    → Registered kmalloc num_bigpages 0 (regis_bigspace kmalloc num_bigpages memory)
unfolding regis_bigspace
regis_bigspace-Registered kmalloc n memory =
    alloc_pages-Registered kmalloc n 0 _ (λ j x y. clear_pages-in n 0 memory j x y)

-- Two ranges of `size` bytes have no byte in common.
abbrev pub AreApart : (size a b : ℕ) → Type 0
AreApart size a b = (a + size ≤ b) ⊎ (b + size ≤ a)

-- If the pieces that were allocated do not overlap, then the pages at two offsets that are different
-- multiples of the page size, both in allocated pieces, do not overlap either.
pub translate_useraddr-Apart :
    (bufferpages : ℕ → ℕ) (p q : ℕ)
    → ((i j : ℕ)
        → i ≢ j
        → bufferpages i ≢ 0
        → bufferpages j ≢ 0
        → AreApart rping_bufsize (bufferpages i) (bufferpages j))
    → translate_useraddr bufferpages (p * page_size) ≢ 0
    → translate_useraddr bufferpages (q * page_size) ≢ 0
    → p ≢ q
    → AreApart page_size
        (translate_useraddr bufferpages (p * page_size))
        (translate_useraddr bufferpages (q * page_size))
unfolding translate_useraddr
translate_useraddr-Apart b p q apart hp hq n =
    let i : ℕ = p * page_size / rping_bufsize in
    let j : ℕ = q * page_size / rping_bufsize in
    let bp : (b i == 0) ≡ false = ground (arith, hp) in
    let bq : (b j == 0) ≡ false = ground (arith, hq) in
    rw (bp, bq)
      (elim (Bool-cases (i == j)) [
        | inl t ↦ let e : i ≡ j = (==_iff i j).0 t in rw e (same_piece _ e (Bool-cases (ltb p q)))
        | inr f ↦ elim (apart i j (ground arith) (ground arith) (ground arith)) [
          | inl l ↦ inl (omega (arith, l))
          | inr l ↦ inr (omega (arith, l))
        ]
      ])
  where
    same_piece :
        (base : ℕ)
        → p * page_size / rping_bufsize ≡ q * page_size / rping_bufsize
        → (ltb p q ≡ true) ⊎ (ltb p q ≡ false)
        → AreApart page_size
            (base + p * page_size % rping_bufsize)
            (base + q * page_size % rping_bufsize)
    same_piece base e (inl t) = let l : p < q = ground arith in inl (omega arith)
    same_piece base e (inr f) = let l : q < p = ground (arith, n) in inr (omega arith)
