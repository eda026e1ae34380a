-- ===== src/Start/Ends.antt =====
-- The loop over the options ends.
use comex.Base.{
  ℕ, zero, suc, ◌<◌, ◌≤◌, ◌≡◌, refl, sym, ap, ◌∙◌, inl, inr, Bool-cases, Option-cases, List, ◌∷◌,
  ◌++◌, none, some, if◌then◌else◌, length, length-append, replicate, arith,
}
use comex.Base.Int.{pos, ◌==ℤ◌}
use comex.Getopt.{Parsed, krping_getopt}
use comex.Getopt.Tokens.{joined, Taken, ended, took, krping_getopt-Taken}
use comex.Start.{krping_opts, Options, take_op, option_loop}

module _ (htons : ℕ → ℕ) (strtoul : List ℕ → ℕ × List ℕ) where
  abbrev parsed : List ℕ → Parsed
  parsed cmd = krping_getopt strtoul krping_opts cmd

  -- What is left after a call is shorter, unless there is nothing left.
  shorter :
      (cmd r : List ℕ) (n : ℕ) (token : List ℕ)
      → cmd ≡ replicate n 44 ++ joined 44 (token, some r)
      → length r < length cmd
  shorter cmd r n token e = omega (
    arith,
    ap length e,
    length-append (replicate n 44) (token ++ 44 ∷ r),
    length-append token (44 ∷ r),
  )

  left-shorter :
      (cmd r : List ℕ) (p : Parsed)
      → Taken strtoul krping_opts cmd p
      → p.options ≡ some r
      → length r < length cmd
  left-shorter cmd r p (ended n e ret o) h = absurd (none-not_some (sym o ∙ h))
    where
      none-not_some : none ≡ some r → ⊥
      none-not_some e = cc
  left-shorter cmd r p (took n token e x y z w v) h =
      shorter cmd r n token (e ∙ ap (λ o. replicate n 44 ++ joined 44 (token, o)) h)

  step :
      (fuel : ℕ) (o : Options) (cmd : List ℕ)
      → option_loop htons strtoul (suc fuel) o (some cmd) ≡ (
          if (parsed cmd).ret ==ℤ pos 0
          then some o
          else option_loop htons strtoul fuel (take_op htons o (parsed cmd)) (parsed cmd).options)
  unfolding option_loop
  step fuel o cmd = refl

  no_text : (fuel : ℕ) (o : Options) → option_loop htons strtoul fuel o none ≡ some o
  unfolding option_loop
  no_text zero o = refl
  no_text (suc fuel) o = refl

  -- The options that the loop ends with, whatever the fuel, if it suffices
  abbrev Ends : Options → List ℕ → Type 0
  Ends o cmd =
      (o' : Options) × ((fuel : ℕ)
        → length cmd < fuel
        → option_loop htons strtoul fuel o (some cmd) ≡ some o')

  one_more :
      (o o' : Options) (cmd : List ℕ)
      → ((fuel : ℕ)
          → length cmd ≤ fuel
          → option_loop htons strtoul fuel (take_op htons o (parsed cmd)) (parsed cmd).options
            ≡ some o')
      → Ends o cmd
  one_more o o' cmd rest = (if (parsed cmd).ret ==ℤ pos 0 then o else o', by-fuel)
    where
      by-fuel :
          (fuel : ℕ)
          → length cmd < fuel
          → option_loop htons strtoul fuel o (some cmd)
            ≡ some (if (parsed cmd).ret ==ℤ pos 0 then o else o')
      by-fuel zero h = absurd (omega (arith, h))
      by-fuel (suc fuel) h = step fuel o cmd ∙ elim (Bool-cases ((parsed cmd).ret ==ℤ pos 0)) [
        | inl t ↦ rw t refl
        | inr f ↦ rw f (rest fuel (omega (arith, h)))
      ]

  loop_below : (k : ℕ) (o : Options) (cmd : List ℕ) → length cmd < k → Ends o cmd
  loop_below zero o cmd h = absurd (omega (arith, h))
  loop_below (suc k) o cmd h =
      let o' = take_op htons o (parsed cmd) in
      elim (Option-cases (parsed cmd).options) [
        | inl e ↦
            one_more o o' cmd
              (λ fuel l. ap (λ x. option_loop htons strtoul fuel o' x) e ∙ no_text fuel o')
        | inr e ↦
            let less : length e.0 < length cmd =
              left-shorter cmd e.0 (parsed cmd) (krping_getopt-Taken strtoul krping_opts cmd) e.1 in
            let rest = loop_below k o' e.0 (omega (arith, h, less)) in
            one_more o rest.0 cmd (λ fuel l.
              ap (λ x. option_loop htons strtoul fuel o' x) e.1
              ∙ rest.1 fuel (omega (arith, l, less)))
      ]

  -- The loop over the options ends: with any fuel above the length of the text the result is there, and
  -- is the same.
  pub option_loop-ends :
      (o : Options) (cmd : List ℕ)
      → (o' : Options) × ((fuel : ℕ)
          → length cmd < fuel
          → option_loop htons strtoul fuel o (some cmd) ≡ some o')
  option_loop-ends o cmd = loop_below (suc (length cmd)) o cmd (omega arith)
