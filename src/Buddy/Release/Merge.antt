-- ===== src/Buddy/Release/Merge.antt =====
-- The loop of COMEX_free_page: a freed block grows as long as its buddy is free.
use native.Mathlib.Nat.{two-pow-succ}
use comex.Base.{
  ℕ, zero, suc, ◌+◌, ◌-◌, ◌*◌, ◌%◌, ◌^◌, ◌≤◌, ◌<◌, ◌≡◌, refl, sym, ap, inl, inr, true, List, [],
  ◌∷◌, ◌++◌, arith, ◌==◌, update, Bool-cases, ==_iff,
}
use comex.Base.Bits.{pow_pos}
use comex.Buddy.{Buddy, page_is_buddy, buddy_idx, combined_idx, absorb, merge_loop}
use comex.Buddy.Bits.{Halves, index-Halves}
use comex.Buddy.Links.{max_order}
use comex.Buddy.Links.Ring.{has}
use comex.Buddy.Blocks.{Lists, IsTiling, in_block, cover, in_block_self, in_block-halves}
use comex.Buddy.Blocks.Tiling.{cover-leave, IsTiling-leave}
use comex.Buddy.Shape.{IsShaped}
use comex.Buddy.Shape.Unlink.{unlink-IsShaped}
use comex.Buddy.Shape.Insert.{rmv_page_order-IsShaped}
use comex.Buddy.Alloc.Expand.{SameNumbers, SameNumbers-refl, SameNumbers-trans}

has-split :
    (p : ℕ) (ps : List ℕ) → has p ps ≡ true → (ys : List ℕ) × (zs : List ℕ) × (ps ≡ ys ++ p ∷ zs)
has-split p [] i = absurd (cc)
has-split p (x ∷ ps) i = elim (Bool-cases (p == x)) [
  | inl e ↦ ([], ps, ap (λ y. y ∷ ps) (sym ((==_iff p x).0 e)))
  | inr n ↦ let (ys, zs, e) = has-split p ps (ground arith) in (x ∷ ys, zs, ap (λ l. x ∷ l) e)
]

absorb-numbers : (b : Buddy) (page buddy order : ℕ) → SameNumbers b (absorb b page buddy order)
unfolding absorb update
absorb-numbers b page buddy order = record { cntr = λ j. ground arith; page_no = λ j. ground arith }

-- The block that the loop ends with: with the lists it covers what it covered before.
pub record Merged (total : ℕ) (b : Buddy) (ls : Lists) (page order : ℕ) (out : Buddy × ℕ × ℕ)
    : Type 0 where
  pub lists : Lists
  pub shape : IsShaped total out.0 lists
  pub tiling : IsTiling total lists
  pub numbers : SameNumbers b out.0
  pub small : out.2 < max_order
  pub aligned : out.1 % 2 ^ out.2 ≡ 0
  pub within : out.1 + 2 ^ out.2 ≤ total
  pub covers : (j : ℕ) → cover lists j + in_block out.1 out.2 j ≡ cover ls j + in_block page order j

-- One round with a free buddy.
module _ {total : ℕ} {b : Buddy} {ls : Lists} (s : IsShaped total b ls) (t : IsTiling total ls)
    (page order buddy whole : ℕ) (h : order < 10) (hv : Halves page order buddy whole)
    (g : total % 1024 ≡ 0) (w : page + 2 ^ order ≤ total)
    (f : (j : ℕ) → cover ls j + in_block page order j ≤ 1)
    (marked : page_is_buddy b buddy order ≡ true) where
  page-lt : page < total
  page-lt = omega (arith, pow_pos order)

  buddy_listed : has buddy (ls order) ≡ true
  buddy_listed =
      s.listed order buddy (omega arith)
        (omega (arith, hv.within total g page-lt, hv.halves, pow_pos order)) marked

  cut : (ys : List ℕ) × (zs : List ℕ) × (ls order ≡ ys ++ buddy ∷ zs)
  cut = has-split buddy (ls order) buddy_listed

  left : Lists
  left = update ls order (cut.0 ++ cut.1)

  left_covers : (j : ℕ) → cover left j + in_block buddy order j ≡ cover ls j
  unfolding left
  left_covers = cover-leave t order (omega arith) buddy cut.0 cut.1 cut.2

  left-IsTiling : IsTiling total left
  unfolding left
  left-IsTiling = IsTiling-leave t order (omega arith) buddy cut.0 cut.1 cut.2

  page_free : cover left page ≡ 0
  page_free = omega (arith, left_covers page, f page, in_block_self page order)

  left_shape : IsShaped total (absorb b page buddy order) left
  unfolding absorb left
  left_shape =
      rmv_page_order-IsShaped (unlink-IsShaped s order (omega arith) cut.0 buddy cut.1 cut.2) page
        page_free

  whole_block :
      (j : ℕ) → in_block whole (suc order) j ≡ in_block page order j + in_block buddy order j
  whole_block j = elim hv.halves [
    | inl (e, e') ↦ rw (e, e') (in_block-halves page order j)
    | inr (e, e') ↦ rw (e, e') (omega (arith, in_block-halves buddy order j))
  ]

pow_up : (o : ℕ) → 2 ^ (o + 1) ≡ 2 * 2 ^ o
pow_up o = let up : o + 1 ≡ suc o = omega arith in rw up (omega (arith, two-pow-succ o))

stop :
    {total : ℕ} {b : Buddy} {ls : Lists} (page order : ℕ)
    → IsShaped total b ls
    → IsTiling total ls
    → order < max_order
    → page % 2 ^ order ≡ 0
    → page + 2 ^ order ≤ total
    → Merged total b ls page order (b, page, order)
stop {b} {ls} page order s t h a w = record {
  lists = ls;
  shape = s;
  tiling = t;
  numbers = SameNumbers-refl b;
  small = h;
  aligned = a;
  within = w;
  covers = λ j. refl;
}

-- What a round with the free buddy leads to is what the round began with.
grown :
    {total : ℕ} {b b' : Buddy} {ls ls' : Lists} (page order buddy whole : ℕ) {out : Buddy × ℕ × ℕ}
    → SameNumbers b b'
    → ((j : ℕ) → cover ls' j + in_block buddy order j ≡ cover ls j)
    → ((j : ℕ) → in_block whole (order + 1) j ≡ in_block page order j + in_block buddy order j)
    → Merged total b' ls' whole (order + 1) out
    → Merged total b ls page order out
grown page order buddy whole n c d m = record {
  lists = m.lists;
  shape = m.shape;
  tiling = m.tiling;
  numbers = SameNumbers-trans n m.numbers;
  small = m.small;
  aligned = m.aligned;
  within = m.within;
  covers = λ j. omega (arith, m.covers j, c j, d j);
}

-- The loop of COMEX_free_page for an aligned block within the pages and apart from the free blocks,
-- in a pool of whole 1024-page groups: the block that it ends with is aligned, within the pages, of
-- order at most 10, and is made of the first block and of the free blocks that have left their lists;
-- the lists are shaped and tiling again, and no page's number or counter changes.
pub merge_loop-Merged :
    (n page page_idx order : ℕ) {total : ℕ} {b : Buddy} {ls : Lists}
    → total % 1024 ≡ 0
    → IsShaped total b ls
    → IsTiling total ls
    → n + order ≡ 10
    → page_idx ≡ page % 2048
    → page % 2 ^ order ≡ 0
    → page + 2 ^ order ≤ total
    → ((j : ℕ) → cover ls j + in_block page order j ≤ 1)
    → Merged total b ls page order (merge_loop b n page page_idx order)
unfolding merge_loop
merge_loop-Merged zero page page_idx order g s t e i a w f = stop page order s t (omega arith) a w
merge_loop-Merged (suc n) page page_idx order {total} {b} {ls} g s t e i a w f =
    let h : order < 10 = omega arith in
    let (hv, idx) = index-Halves order page page_idx i h a in
    let buddy = page + buddy_idx page_idx order - page_idx in
    let whole = page + combined_idx page_idx order - page_idx in
    elim (Bool-cases (page_is_buddy b buddy order)) [
      | inl m ↦
          let sh = left_shape s t page order buddy whole h hv g w f m in
          let ti = left-IsTiling s t page order buddy whole h hv g w f m in
          let co = left_covers s t page order buddy whole h hv g w f m in
          let wb = whole_block s t page order buddy whole h hv g w f m in
          let up : order + 1 ≡ suc order = omega arith in
          let rest =
            merge_loop-Merged n whole (combined_idx page_idx order) (order + 1) g sh ti
              (omega arith) (sym idx) (rw (pow_up order) hv.aligned)
              (rw (pow_up order)
                (hv.within total g (page-lt s t page order buddy whole h hv g w f m)))
              (λ j. rw up (omega (arith, wb j, co j, f j))) in
          rw (m, merge_loop)
            (grown page order buddy whole (absorb-numbers b page buddy order) co (λ j. rw up (wb j))
              rest)
      | inr m ↦ rw (m, merge_loop) (stop page order s t (omega arith) a w)
    ]
