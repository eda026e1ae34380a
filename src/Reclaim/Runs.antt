-- ===== src/Reclaim/Runs.antt =====
-- The release loop frees exactly the pages of its runs.
use comex.Base.{
  ℕ, zero, suc, ◌+◌, ◌-◌, ◌%◌, ◌^◌, ◌≤◌, ◌<◌, ◌≡◌, refl, inl, inr, not, ◌&&◌, ◌||◌, Bool-cases,
  List, [], ◌∷◌, ltb, leb, ◌==◌, if◌then◌else◌, arith, All,
}
use comex.Base.Bits.{bit_and_mask, low_bits-aligned, pow_pos}
use comex.Buddy.{Buddy, free_page}
use comex.Buddy.Blocks.{Lists, cover, in_block, in_block-out}
use comex.Buddy.Valid.{IsValid}
use comex.Buddy.Release.{Released, free_page-Released}
use comex.Reclaim.{pick_pow, free_run, PageRun, free_runs}

-- 1 if page `j` is one of the `count` pages from `page_no` on, else 0
unfoldable pub in_run : (page_no count j : ℕ) → ℕ
in_run page_no count j = if leb page_no j && ltb j (page_no + count) then 1 else 0

-- The order chosen is small enough, and the block is aligned.
record Picked (pow count idx o : ℕ) : Type 0 where
  small : o ≤ pow
  fits : 2 ^ o ≤ count
  aligned : idx % 2 ^ o ≡ 0

pick_pow-Picked : (pow count idx : ℕ) → 1 ≤ count → Picked pow count idx (pick_pow pow count idx)
unfolding pick_pow
pick_pow-Picked zero count idx h = record { small = omega arith; fits = h; aligned = omega arith }
pick_pow-Picked (suc pow) count idx h =
    elim (Bool-cases (ltb count (2 ^ suc pow) || not (idx % 2 ^ suc pow == 0))) [
      | inl t ↦
          let r = pick_pow-Picked pow count idx h in
          rw t (record { small = omega (arith, r.small); fits = r.fits; aligned = r.aligned })
      | inr f ↦ rw f (record { small = omega arith; fits = ground arith; aligned = ground arith })
    ]

-- What it means for the pages of a run to have become free.
pub record Freed (total : ℕ) (ls : Lists) (taken : ℕ → ℕ) (b' : Buddy) : Type 0 where
  pub lists : Lists
  pub valid : IsValid total b' lists
  pub covers : (j : ℕ) → cover lists j ≡ cover ls j + taken j

in_run-split :
    (p c o j : ℕ) → 2 ^ o ≤ c → in_run p c j ≡ in_block p o j + in_run (p + 2 ^ o) (c - 2 ^ o) j
unfolding in_run in_block
in_run-split p c o j h = ground (arith, pow_pos o)

pub in_run-none : (p j : ℕ) → in_run p 0 j ≡ 0
unfolding in_run
in_run-none p j = ground arith

-- A run of used pages within the pages of the node: after the loop all of them are free, the others
-- are as free as before, no count is left, and the state is valid.
pub free_run-Freed :
    (fuel : ℕ) {total : ℕ} {b : Buddy} {ls : Lists} (p c : ℕ)
    → IsValid total b ls
    → c ≤ fuel
    → p + c ≤ total
    → ((j : ℕ) → p ≤ j → j < p + c → cover ls j ≡ 0)
    → Freed total ls (in_run p c) (free_run fuel b p c).0 × ((free_run fuel b p c).1 ≡ 0)
unfolding free_run
free_run-Freed zero {ls} p zero v f w used =
    (record { lists = ls; valid = v; covers = λ j. omega (arith, in_run-none p j) }, refl)
free_run-Freed zero p (suc c) v f w used = absurd (omega arith)
free_run-Freed (suc fuel) {ls} p zero v f w used =
    (record { lists = ls; valid = v; covers = λ j. omega (arith, in_run-none p j) }, refl)
free_run-Freed (suc fuel) {total} {b} {ls} p (suc c) v f w used =
    let picked = pick_pow-Picked 10 (suc c) (p % 2 ^ 10) (omega arith) in
    let o = pick_pow 10 (suc c) (p % 2 ^ 10) in
    let first : Released total ls o p (free_page b p o) =
      free_page-Released v o p (omega (arith, picked.small))
        (low_bits-aligned 10 o p picked.small picked.aligned) (omega (arith, picked.fits))
        (λ j x y. used j x (omega (arith, picked.fits))) in
    let rest =
      free_run-Freed fuel (p + 2 ^ o) (suc c - 2 ^ o) first.valid (omega (arith, pow_pos o))
        (omega (arith, picked.fits))
        (λ j x y. omega (
          arith,
          picked.fits,
          first.covers j,
          in_block-out p o j (ground arith),
          used j (omega (arith, pow_pos o)) (omega (arith, picked.fits)),
        )) in
    rw (bit_and_mask 10 p, free_run)
      (
        record {
          lists = rest.0.lists;
          valid = rest.0.valid;
          covers = λ j.
              omega
                (arith, rest.0.covers j, first.covers j, in_run-split p (suc c) o j picked.fits);
        },
        rest.1,
      )

-- How often page `j` is named by the runs.
unfoldable pub in_runs : List PageRun → ℕ → ℕ
in_runs [] j = 0
in_runs (r ∷ rs) j = in_run r.page_no r.count j + in_runs rs j

abbrev pub RunWithin : ℕ → PageRun → Type 0
RunWithin total r = r.page_no + r.count ≤ total

in_run-in : (p c j : ℕ) → p ≤ j → j < p + c → in_run p c j ≡ 1
unfolding in_run
in_run-in p c j x y = ground arith

-- If the runs of a release message lie within the pages, name no page twice and name used pages
-- only, then handling the message makes exactly their pages free, in a valid state.
pub free_runs-Freed :
    (rs : List PageRun) {total : ℕ} {b : Buddy} {ls : Lists}
    → IsValid total b ls
    → All (RunWithin total) rs
    → ((j : ℕ) → cover ls j + in_runs rs j ≤ 1)
    → Freed total ls (in_runs rs) (free_runs b rs)
unfolding free_runs in_runs
free_runs-Freed [] {ls} v w once = record { lists = ls; valid = v; covers = λ j. omega arith }
free_runs-Freed (r ∷ rs) v w once =
    let now =
      free_run-Freed r.count r.page_no r.count v (omega arith) w.0
        (λ j x y. omega (arith, once j, in_run-in r.page_no r.count j x y)) in
    let rest = free_runs-Freed rs now.0.valid w.1 (λ j. omega (arith, once j, now.0.covers j)) in
    record {
      lists = rest.lists;
      valid = rest.valid;
      covers = λ j. omega (arith, rest.covers j, now.0.covers j);
    }
