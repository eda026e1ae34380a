-- ===== src/ReadIn/Window.antt =====
-- The window of sixteen slots that a page's slot lies in.
use native.Mathlib.Nat.{mul_assoc, mul-add-mod_self_right, mod-eq_of_lt, mod-lt, div-add-mod'}
use comex.Base.{
  ℕ, zero, suc, ◌+◌, ◌-◌, ◌*◌, ◌/◌, ◌%◌, ◌≤◌, ◌<◌, ◌≡◌, refl, ap, ◌∙◌, inl, inr, true, false, ◌&&◌,
  Bool-cases, ltb, leb, ◌==◌, update, update_self, update_ne, arith,
}
use comex.WriteOut.{Desc}
use comex.ReadIn.{fill, receive, pre_f_floor}

pub fill-out :
    (d : ℕ → Desc) (slot n i : ℕ) (v : ℕ → Desc) (j : ℕ)
    → (leb (slot + i) j && ltb j (slot + i + n)) ≡ false
    → fill d slot n i v j ≡ d j
unfolding fill
fill-out d slot zero i v j x = refl
fill-out d slot (suc n) i v j x =
    fill-out (update d (slot + i) (v i)) slot n (i + 1) v j (ground arith)
    ∙ update_ne d (slot + i) (v i) j (ground arith)

pub fill-in :
    (d : ℕ → Desc) (slot n i : ℕ) (v : ℕ → Desc) (j : ℕ)
    → i ≤ j
    → j < i + n
    → fill d slot n i v (slot + j) ≡ v j
unfolding fill
fill-in d slot zero i v j x y = absurd (omega arith)
fill-in d slot (suc n) i v j x y = elim (Bool-cases (j == i)) [
  | inl t ↦
      let e : j ≡ i = ground arith in
      rw e (
        fill-out (update d (slot + i) (v i)) slot n (i + 1) v (slot + i) (ground arith)
        ∙ update_self d (slot + i) (v i))
  | inr f ↦ fill-in (update d (slot + i) (v i)) slot n (i + 1) v j (ground arith) (omega arith)
]

pub receive-in {ℓ} :
    {A : Type ℓ} (contents : ℕ → A) (slot size : ℕ) (pages : ℕ → A) (i : ℕ)
    → i < size
    → receive contents slot size pages (slot + i) ≡ pages i
unfolding receive
receive-in contents slot size pages i h =
    let inside : (leb slot (slot + i) && ltb (slot + i) (slot + size)) ≡ true = ground arith in
    let e : slot + i - slot ≡ i = omega arith in rw (inside, e) refl

pub receive-out {ℓ} :
    {A : Type ℓ} (contents : ℕ → A) (slot size : ℕ) (pages : ℕ → A) (j : ℕ)
    → (leb slot j && ltb j (slot + size)) ≡ false
    → receive contents slot size pages j ≡ contents j
unfolding receive
receive-out contents slot size pages j h = rw h refl

-- A number's place among 16 * t slots keeps its low digit.
place_digits : (q t r : ℕ) → r < 16 → 0 < t → (q * 16 + r) % (t * 16) ≡ q % t * 16 + r
place_digits q t r hr ht =
    ap (λ n. n % (t * 16)) whole
    ∙ mul-add-mod_self_right (q / t) (t * 16) (q % t * 16 + r)
    ∙ mod-eq_of_lt (omega (arith, mod-lt q ht))
  where
    whole : q * 16 + r ≡ q / t * (t * 16) + (q % t * 16 + r)
    whole = omega (arith, div-add-mod' q t, mul_assoc (q / t) t 16)

floor-is : (x : ℕ) → pre_f_floor x ≡ x / 16 * 16
floor-is x = omega arith

-- With the number of slots a multiple of 16, the window of a page's slot has the slots of the pages
-- of its window.
pub window_slots :
    (t p i : ℕ) → 0 < t → i < 16 → (pre_f_floor p + i) % (t * 16) ≡ pre_f_floor (p % (t * 16)) + i
window_slots t p i ht hi =
    let low = place_digits (p / 16) t i hi ht in
    let self = place_digits (p / 16) t (p % 16) (omega arith) ht in
    let e : p / 16 * 16 + p % 16 ≡ p = omega arith in
    let self' = rw e at self in rw (floor-is p, low) (omega (arith, self'))

-- A page and its slot stand at the same place in their windows.
pub window_self : (t p : ℕ) → 0 < t → p % (t * 16) ≡ pre_f_floor (p % (t * 16)) + p % 16
window_self t p ht =
    let self = place_digits (p / 16) t (p % 16) (omega arith) ht in
    let e : p / 16 * 16 + p % 16 ≡ p = omega arith in
    let self' = rw e at self in omega (arith, self')
