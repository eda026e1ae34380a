-- ===== src/Getopt/Tokens.antt =====
-- Reading options loses no character.
use comex.Base.{
  ℕ, suc, ◌≡◌, ◌≢◌, refl, sym, ap, inl, inr, Bool, false, Bool-cases, List, [], ◌∷◌, ◌++◌, Option,
  none, some, ◌==◌, ◌||◌, ==_iff, replicate, arith,
}
use comex.Base.Int.{pos}
use comex.Getopt.{KrpingOption, split, next_token, find_option, Parsed, krping_getopt}

-- The text is the token and the separator with the rest.
abbrev pub joined : ℕ → List ℕ × Option (List ℕ) → List ℕ
joined c (token, rest) = elim rest [ none ↦ token | some r ↦ token ++ c ∷ r ]

split-joined : (c : ℕ) (s : List ℕ) → joined c (split c s) ≡ s
unfolding split
split-joined c [] = refl
split-joined c (x ∷ xs) = elim (Bool-cases (x == c)) [
  | inl t ↦ rw t (ap (λ y. y ∷ xs) (sym ((==_iff x c).0 t)))
  | inr f ↦ rw f (longer (split c xs) (split-joined c xs))
]
  where
    longer : (t : List ℕ × Option (List ℕ)) → joined c t ≡ xs → joined c (x ∷ t.0, t.1) ≡ x ∷ xs
    longer (token, none) e = ap (λ y. x ∷ y) e
    longer (token, some r) e = ap (λ y. x ∷ y) e

abbrev pub contains : ℕ → List ℕ → Bool
contains c [] = false
contains c (x ∷ xs) = (x == c) || contains c xs

split-contains : (c : ℕ) (s : List ℕ) → contains c (split c s).0 ≡ false
unfolding split
split-contains c [] = refl
split-contains c (x ∷ xs) = elim (Bool-cases (x == c)) [
  | inl t ↦ rw t refl
  | inr f ↦ rw f (ground (arith, f, split-contains c xs))
]

split-starts : (x : ℕ) (xs : List ℕ) → (x == 44) ≡ false → (split 44 (x ∷ xs)).0 ≢ []
unfolding split
split-starts x xs f = rw f (λ e. cons-empty (split 44 xs).0 e)
  where
    cons-empty : (ys : List ℕ) → x ∷ ys ≡ [] → ⊥
    cons-empty ys e = cc

-- What the first loop finds: nothing but separators, or some of them and then a token with the rest
-- of the text.
pub data Next (s : List ℕ) : Option (List ℕ × Option (List ℕ)) → Type 0 where
  no_more : (n : ℕ) → s ≡ replicate n 44 → Next s none
  next :
      (n : ℕ) (t : List ℕ × Option (List ℕ))
      → s ≡ replicate n 44 ++ joined 44 t
      → t.0 ≢ []
      → contains 44 t.0 ≡ false
      → Next s (some t)

next_token-Next : (s : List ℕ) → Next s (next_token s)
unfolding next_token
next_token-Next [] = no_more 0 refl
next_token-Next (x ∷ xs) = elim (Bool-cases (x == 44)) [
  | inl t ↦ rw t (skipped ((==_iff x 44).0 t) _ (next_token-Next xs))
  | inr f ↦ rw f (
      next 0 (split 44 (x ∷ xs)) (sym (split-joined 44 (x ∷ xs))) (split-starts x xs f)
        (split-contains 44 (x ∷ xs)))
]
  where
    skipped : x ≡ 44 → (o : Option (List ℕ × Option (List ℕ))) → Next xs o → Next (x ∷ xs) o
    skipped e o (no_more n h) = no_more (suc n) (rw (e, h) refl)
    skipped e o (next n t h m q) = next (suc n) t (rw (e, h) refl) m q

-- How a call of krping_getopt ends. If nothing but separators is left it returns 0 and there are no
-- options left. Else, after separators, it takes a token that is not empty up to the next separator,
-- leaves what follows it, and splits it at its first '=' into the name and the argument, by which it
-- looks the option up.
pub data Taken (strtoul : List ℕ → ℕ × List ℕ) (opts : List KrpingOption) (s : List ℕ)
    (out : Parsed) : Type 0 where
  ended :
      (n : ℕ) → s ≡ replicate n 44 → out.ret ≡ pos 0 → out.options ≡ none → Taken strtoul opts s out
  took :
      (n : ℕ) (token : List ℕ)
      → s ≡ replicate n 44 ++ joined 44 (token, out.options)
      → token ≢ []
      → contains 44 token ≡ false
      → contains 61 out.optopt ≡ false
      → joined 61 (out.optopt, out.optarg) ≡ token
      → find_option strtoul opts out.optopt out.optarg ≡ (out.ret, out.value)
      → Taken strtoul opts s out

-- A call of krping_getopt ends in one of these two ways.
pub krping_getopt-Taken :
    (strtoul : List ℕ → ℕ × List ℕ) (opts : List KrpingOption) (s : List ℕ)
    → Taken strtoul opts s (krping_getopt strtoul opts s)
unfolding krping_getopt
krping_getopt-Taken strtoul opts s = by-cases (next_token s) (next_token-Next s)
  where
    by-cases :
        (o : Option (List ℕ × Option (List ℕ)))
        → Next s o
        → Taken strtoul opts s (elim o [
          | none ↦ record { ret = pos 0; options = none; optopt = []; optarg = none; value = none }
          | some t ↦ record {
            ret = (find_option strtoul opts (split 61 t.0).0 (split 61 t.0).1).0;
            options = t.1;
            optopt = (split 61 t.0).0;
            optarg = (split 61 t.0).1;
            value = (find_option strtoul opts (split 61 t.0).0 (split 61 t.0).1).1;
          }
        ])
    by-cases o (no_more n e) = ended n e refl refl
    by-cases o (next n t e m q) =
        took n t.0 e m q (split-contains 61 t.0) (split-joined 61 t.0) refl
