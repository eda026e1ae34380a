-- ===== src/Buddy/Alloc/Expand.antt =====
-- COMEX_expand: the rest of a split block goes back to the lists.
use native.Mathlib.Nat.{two-pow-succ}
use comex.Base.{
  ℕ, zero, suc, ◌+◌, ◌-◌, ◌/◌, ◌%◌, ◌^◌, ◌≤◌, ◌<◌, ◌≡◌, refl, ◌∙◌, inl, inr, true, false, ◌∷◌,
  arith, ltb, update, Bool-cases,
}
use comex.Buddy.{Buddy, expand_step, expand_loop}
use comex.Buddy.Links.{max_order}
use comex.Buddy.Blocks.{
  Lists, IsTiling, in_block, cover_list, cover, in_block_self, in_block-halves,
}
use comex.Buddy.Blocks.Tiling.{halves-aligned, cover-enter, IsTiling-enter}
use comex.Buddy.Shape.{IsShaped}
use comex.Buddy.Shape.Insert.{expand_step-IsShaped}

-- The counters and page numbers are as they were.
pub record SameNumbers (b b' : Buddy) : Type 0 where
  pub cntr : (j : ℕ) → (b'.page j).cntr ≡ (b.page j).cntr
  pub page_no : (j : ℕ) → (b'.page j).page_no ≡ (b.page j).page_no

pub SameNumbers-refl : (b : Buddy) → SameNumbers b b
SameNumbers-refl b = record { cntr = λ j. refl; page_no = λ j. refl }

pub SameNumbers-trans : {a b c : Buddy} → SameNumbers a b → SameNumbers b c → SameNumbers a c
SameNumbers-trans s t = record {
  cntr = λ j. t.cntr j ∙ s.cntr j;
  page_no = λ j. t.page_no j ∙ s.page_no j;
}

expand_step-numbers : (b : Buddy) (p size o area : ℕ) → SameNumbers b (expand_step b p size o area)
unfolding expand_step update
expand_step-numbers b p size o area = record {
  cntr = λ j. ground arith;
  page_no = λ j. ground arith;
}

-- The block at `p`, of order `low`, is what is left of one of order `high`.
pub record Expanded (total : ℕ) (b : Buddy) (ls : Lists) (p low high : ℕ) (b' : Buddy)
    : Type 0 where
  pub lists : Lists
  pub shape : IsShaped total b' lists
  pub tiling : IsTiling total lists
  pub numbers : SameNumbers b b'
  pub aligned : p % 2 ^ low ≡ 0
  pub within : p + 2 ^ low ≤ total
  pub covers : (j : ℕ) → cover lists j + in_block p low j ≡ cover ls j + in_block p high j

expand_loop-more :
    (b : Buddy) (p low high : ℕ)
    → ltb low (suc high) ≡ true
    → expand_loop b p low (2 ^ suc high) (suc high) (suc high)
      ≡ expand_loop (expand_step b p (2 ^ high) high high) p low (2 ^ high) high high
unfolding expand_loop
expand_loop-more b p low high more =
    let half : 2 ^ suc high / 2 ≡ 2 ^ high = omega (arith, two-pow-succ high) in
    let down : suc high - 1 ≡ high = omega arith in rw (more, expand_loop, half, down)

expand_loop-done :
    (b : Buddy) (p low high : ℕ)
    → ltb low (suc high) ≡ false
    → expand_loop b p low (2 ^ suc high) (suc high) (suc high) ≡ b
unfolding expand_loop
expand_loop-done b p low high done = rw (done, expand_loop)

-- One round, on a block that no list holds.
module _ {total : ℕ} {b : Buddy} {ls : Lists} (p high : ℕ) (s : IsShaped total b ls)
    (t : IsTiling total ls) (h : suc high < max_order) (a : p % 2 ^ suc high ≡ 0)
    (w : p + 2 ^ suc high ≤ total) (f : (j : ℕ) → cover ls j + in_block p (suc high) j ≤ 1) where
  abbrev upper : ℕ
  upper = p + 2 ^ high

  lists_after : Lists
  lists_after = update ls high (upper ∷ ls high)

  upper_free : cover ls upper ≡ 0
  upper_free = omega (arith, f upper, in_block-halves p high upper, in_block_self upper high)

  shape_after : IsShaped total (expand_step b p (2 ^ high) high high) lists_after
  unfolding lists_after
  shape_after = expand_step-IsShaped s p (2 ^ high) high (omega arith) upper_free

  covers_after : (j : ℕ) → cover lists_after j ≡ cover ls j + in_block upper high j
  unfolding lists_after cover_list
  covers_after =
      cover-enter t high (omega arith) upper (upper ∷ ls high) (λ q. refl) (λ j. omega arith)

  IsTiling-after : IsTiling total lists_after
  unfolding lists_after cover_list
  IsTiling-after =
      IsTiling-enter t high (omega arith) upper (upper ∷ ls high) (λ q. refl) (λ j. omega arith)
        (halves-aligned p high a).1 (omega (arith, two-pow-succ high))
        (λ j. omega (arith, f j, in_block-halves p high j))

  lower_free : (j : ℕ) → cover lists_after j + in_block p high j ≤ 1
  lower_free j = omega (arith, covers_after j, f j, in_block-halves p high j)

-- COMEX_expand of a block of order `high` to order `low`: with the lists shaped and tiling, the block
-- aligned, within the pages and apart from the free blocks, all of it but the first 2 ^ low pages
-- becomes free, in lists that are shaped and tiling again, and no page's number or counter changes.
pub expand_loop-Expanded :
    (p low high : ℕ) {total : ℕ} {b : Buddy} {ls : Lists}
    → IsShaped total b ls
    → IsTiling total ls
    → low ≤ high
    → high < max_order
    → p % 2 ^ high ≡ 0
    → p + 2 ^ high ≤ total
    → ((j : ℕ) → cover ls j + in_block p high j ≤ 1)
    → Expanded total b ls p low high (expand_loop b p low (2 ^ high) high high)
unfolding expand_loop
expand_loop-Expanded p low zero {b} {ls} s t l h a w f =
    let e : low ≡ 0 = omega arith in
    record {
      lists = ls;
      shape = s;
      tiling = t;
      numbers = SameNumbers-refl b;
      aligned = rw e a;
      within = rw e w;
      covers = λ j. rw e;
    }
expand_loop-Expanded p low (suc high) {total} {b} {ls} s t l h a w f =
    elim (Bool-cases (ltb low (suc high))) [
      | inl more ↦ rw (expand_loop-more b p low high more) (
          let ih =
            expand_loop-Expanded p low high (shape_after p high s t h a w f)
              (IsTiling-after p high s t h a w f) (ground arith) (omega arith)
              (halves-aligned p high a).0 (omega (arith, two-pow-succ high))
              (lower_free p high s t h a w f) in
          record {
            lists = ih.lists;
            shape = ih.shape;
            tiling = ih.tiling;
            aligned = ih.aligned;
            within = ih.within;
            numbers = SameNumbers-trans (expand_step-numbers b p (2 ^ high) high high) ih.numbers;
            covers = λ j.
                omega
                  (arith, ih.covers j, covers_after p high s t h a w f j, in_block-halves p high j);
          })
      | inr done ↦ rw (expand_loop-done b p low high done) (
          let e : low ≡ suc high = ground arith in
          record {
            lists = ls;
            shape = s;
            tiling = t;
            numbers = SameNumbers-refl b;
            aligned = rw e a;
            within = rw e w;
            covers = λ j. rw e;
          })
    ]
