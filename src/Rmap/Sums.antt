-- ===== src/Rmap/Sums.antt =====
-- The sum of a page's bytes.
use comex.Base.{
  ℕ, zero, suc, ◌+◌, ◌*◌, ◌^◌, ◌≤◌, ◌<◌, ◌≡◌, ◌≢◌, refl, sym, ap, ◌∙◌, inl, inr, Bool-cases, ◌==◌,
  ==_iff, arith,
}
use comex.Rmap.{sum_bytes, checksum_page}

sum_bytes-acc :
    (chr_ptr : ℕ → ℕ) (n i ret : ℕ) → sum_bytes chr_ptr n i ret ≡ ret + sum_bytes chr_ptr n i 0
unfolding sum_bytes
sum_bytes-acc c zero i ret = omega arith
sum_bytes-acc c (suc n) i ret =
    sum_bytes-acc c n (i + 1) (ret + c i)
    ∙ omega arith
    ∙ ap (λ x. ret + x) (sym (sum_bytes-acc c n (i + 1) (0 + c i)))

sum_bytes-suc :
    (chr_ptr : ℕ → ℕ) (n i : ℕ)
    → sum_bytes chr_ptr (suc n) i 0 ≡ chr_ptr i + sum_bytes chr_ptr n (i + 1) 0
unfolding sum_bytes
sum_bytes-suc c n i = sum_bytes-acc c n (i + 1) (0 + c i) ∙ omega arith

sum_bytes-same :
    (c c' : ℕ → ℕ) (n i : ℕ)
    → ((j : ℕ) → i ≤ j → j < i + n → c j ≡ c' j)
    → sum_bytes c n i 0 ≡ sum_bytes c' n i 0
unfolding sum_bytes
sum_bytes-same c c' zero i h = refl
sum_bytes-same c c' (suc n) i h = omega (
  arith,
  sum_bytes-suc c n i,
  sum_bytes-suc c' n i,
  h i (omega arith) (omega arith),
  sum_bytes-same c c' n (i + 1) (λ j x y. h j (omega arith) (omega arith)),
)

-- What a change of the byte `k` does to the sum.
sum_bytes-changed :
    (c c' : ℕ → ℕ) (n i k : ℕ)
    → i ≤ k
    → k < i + n
    → ((j : ℕ) → j ≢ k → c j ≡ c' j)
    → sum_bytes c n i 0 + c' k ≡ sum_bytes c' n i 0 + c k
unfolding sum_bytes
sum_bytes-changed c c' zero i k l h same = absurd (omega arith)
sum_bytes-changed c c' (suc n) i k l h same =
    let a = sum_bytes-suc c n i in
    let b = sum_bytes-suc c' n i in
    elim (Bool-cases (i == k)) [
      | inl t ↦
          let rest = sum_bytes-same c c' n (i + 1) (λ j x y. same j (λ e. ground arith)) in
          rw (← (==_iff i k).0 t) (omega (arith, a, b, rest))
      | inr f ↦ omega (
        arith,
        a,
        b,
        same i (λ e. ground arith),
        sum_bytes-changed c c' n (i + 1) k (ground arith) (omega arith) same,
      )
    ]

-- Pages that differ in exactly one byte have different sums.
pub checksum_page-detects :
    (c c' : ℕ → ℕ) (k : ℕ)
    → k < 4096
    → ((j : ℕ) → j ≢ k → c j ≡ c' j)
    → c k ≢ c' k
    → checksum_page c ≢ checksum_page c'
unfolding checksum_page
checksum_page-detects c c' k h same d e =
    d (omega (arith, e, sum_bytes-changed c c' 4096 0 k (omega arith) (omega arith) same))

sum_bytes-bound : (c : ℕ → ℕ) (n i : ℕ) → ((j : ℕ) → c j < 256) → sum_bytes c n i 0 ≤ n * 255
unfolding sum_bytes
sum_bytes-bound c zero i h = omega arith
sum_bytes-bound c (suc n) i h =
    omega (arith, sum_bytes-suc c n i, h i, sum_bytes-bound c n (i + 1) h)

-- The sum of bytes does not wrap around in an unsigned long.
pub checksum_page-bound : (c : ℕ → ℕ) → ((j : ℕ) → c j < 256) → checksum_page c < 2 ^ 64
unfolding checksum_page
checksum_page-bound c h = omega (arith, sum_bytes-bound c 4096 0 h)
