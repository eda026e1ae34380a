-- ===== src/Buddy/Alloc/Search.antt =====
-- COMEX_rmqueue_smallest as a whole: the search for a list that has a block.
use comex.Base.{
  ℕ, zero, suc, ◌+◌, ◌-◌, ◌≤◌, ◌<◌, ◌≡◌, refl, ◌⊎◌, inl, inr, true, false, List, [], ◌∷◌, map,
  arith, Bool-cases, ◌≢◌, ◌↔◌, sym, ◌∙◌, ◌==◌, ==_iff,
}
use comex.Base.Int.{ℤ, pos, minus_one}
use comex.Buddy.{Buddy, rmqueue_loop, rmqueue_smallest}
use comex.Buddy.Links.{max_order, lru, list_empty}
use comex.Buddy.Links.Ops.{list_empty_iff}
use comex.Buddy.Blocks.{Lists}
use comex.Buddy.Valid.{IsValid}
use comex.Buddy.Alloc.{Taken, take_block_lem}

-- What a search over the orders from `current` on comes to: -1 with nothing changed if all their
-- lists are empty, or a block taken.
pub data Outcome (total : ℕ) (b : Buddy) (ls : Lists) (order current : ℕ) (out : Buddy × ℤ)
    : Type 0 where
  nothing :
      out.1 ≡ minus_one
      → out.0 ≡ b
      → ((o : ℕ) → current ≤ o → o < max_order → ls o ≡ [])
      → Outcome total b ls order current out
  block :
      (p o : ℕ)
      → current ≤ o
      → o < max_order
      → ls o ≢ []
      → out.1 ≡ pos p
      → Taken total ls order p out.0
      → Outcome total b ls order current out

list_cases : (ps : List ℕ) → (ps ≡ []) ⊎ ((p : ℕ) × (r : List ℕ) × (ps ≡ p ∷ r))
list_cases [] = inl refl
list_cases (p ∷ r) = inr (p, r, refl)

module _ {total : ℕ} {b : Buddy} {ls : Lists} (v : IsValid total b ls) (order : ℕ) where
  later :
      (current : ℕ) (out : Buddy × ℤ)
      → ls current ≡ []
      → Outcome total b ls order (current + 1) out
      → Outcome total b ls order current out
  later current out e (nothing r s n) = nothing r s (λ o l h. elim (Bool-cases (o == current)) [
    | inl here ↦ rw ((==_iff o current).0 here) e
    | inr there ↦ n o (ground arith) h
  ])
  later current out e (block p o l h ne r t) = block p o (omega arith) h ne r t

  rmqueue_loop-Outcome :
      (n current : ℕ)
      → n + current ≡ max_order
      → order ≤ current
      → Outcome total b ls order current (rmqueue_loop b n order current)
  unfolding rmqueue_loop
  rmqueue_loop-Outcome zero current e l = nothing refl refl (λ o x y. absurd (omega arith))
  rmqueue_loop-Outcome (suc n) current e l =
      let ring = v.shape.ring current (omega arith) in
      let iff = list_empty_iff b.heads current (map lru (ls current)) ring in
      elim (list_cases (ls current)) [
        | inl none_here ↦
            rw (iff.1 (rw none_here), rmqueue_loop)
              (later current _ none_here
                (rmqueue_loop-Outcome n (current + 1) (omega arith) (omega arith)))
        | inr (p, ps, some_here) ↦
            let found = take_block_lem v order current l (omega arith) p ps some_here in
            rw (full p ps some_here iff, rmqueue_loop)
              (block p current (omega arith) (omega arith) (λ z. cons-ne-nil (sym some_here ∙ z))
                found.0 found.1)
      ]
    where
      cons-ne-nil : {p : ℕ} {ps : List ℕ} → p ∷ ps ≡ [] → ⊥
      cons-ne-nil z = cc

      full :
          (p : ℕ) (ps : List ℕ)
          → ls current ≡ p ∷ ps
          → (list_empty b.heads current ≡ true) ↔ (map lru (ls current) ≡ [])
          → list_empty b.heads current ≡ false
      full p ps s iff = elim (Bool-cases (list_empty b.heads current)) [
        | inl t ↦ absurd (cons-ne-nil (rw s at (iff.0 t)))
        | inr f ↦ f
      ]

  -- From a valid state COMEX_rmqueue_smallest returns -1 exactly if no list of the order or above
  -- holds a block, and then changes nothing. Else it returns the first page of an aligned block of
  -- that order within the pages, all of whose pages were free and now are not; every other page is
  -- as free as before, and the state is valid again.
  pub rmqueue_smallest-Outcome :
      order < max_order → Outcome total b ls order order (rmqueue_smallest b order)
  unfolding rmqueue_smallest
  rmqueue_smallest-Outcome h =
      rmqueue_loop-Outcome (max_order - order) order (omega arith) (omega arith)
