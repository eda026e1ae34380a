-- ===== src/Buddy/Release.antt =====
-- COMEX_free_page: what a release does to the free pages, and what a second release does.
pub mod Merge
use comex.Base.{
  ℕ, zero, suc, ◌+◌, ◌-◌, ◌*◌, ◌/◌, ◌%◌, ◌^◌, ◌≤◌, ◌<◌, ◌≡◌, refl, sym, ap, ◌∙◌, ◌≢◌, ◌⊎◌, inl, inr,
  Bool, true, false, ◌&&◌, ◌||◌, List, [], ◌∷◌, ◌++◌, arith, ◌==◌, ltb, leb, if◌then◌else◌, update,
  Bool-cases,
}
use comex.Base.Bits.{bit_and_mask, pow_pos}
use comex.Base.Int.{ℤ, pos, minus_one}
use comex.Buddy.{Buddy, check_ctr, free_counted, free_page, put_block, merge_loop}
use comex.Buddy.Links.{max_order}
use comex.Buddy.Blocks.{
  Lists, IsTiling, in_block, cover, in_block-in, in_block-out, in_block_self, cover_list,
  cover_list-append,
}
use comex.Buddy.Blocks.Tiling.{cover-enter, IsTiling-enter}
use comex.Buddy.Links.Ring.{has, has-append}
use comex.Buddy.Shape.{IsShaped}
use comex.Buddy.Shape.Insert.{put_block-IsShaped}
use comex.Buddy.Counters.{
  giving, check_ctr_loop-done, check_ctr_loop-refused, check_ctr_loop-same, IsShaped-same,
  SameButCounters,
}
use comex.Buddy.Valid.{IsValid}
use Merge.{Merged, merge_loop-Merged}

-- A block of order `order` at `p` joined the free pages, and nothing else changed among them.
pub record Released (total : ℕ) (ls : Lists) (order p : ℕ) (b' : Buddy) : Type 0 where
  pub lists : Lists
  pub valid : IsValid total b' lists
  pub covers : (j : ℕ) → cover lists j ≡ cover ls j + in_block p order j

abbrev put_out : Buddy × ℕ × ℕ → Buddy
put_out (b, page, o) = put_block b page o

free_counted-is :
    (b : Buddy) (p order : ℕ)
    → (b.page p).page_no ≡ p
    → free_counted b p order ≡ put_out (merge_loop b (max_order - 1 - order) p (p % 2048) order)
unfolding free_counted
free_counted-is b p order e = rw (e, bit_and_mask 11 p)

module _ {total : ℕ} {b : Buddy} {ls : Lists} (v : IsValid total b ls) (order p : ℕ)
    (h : order < max_order) (a : p % 2 ^ order ≡ 0) (w : p + 2 ^ order ≤ total)
    (used : (j : ℕ) → p ≤ j → j < p + 2 ^ order → cover ls j ≡ 0) where
  counted_off : Buddy
  counted_off = (check_ctr b p order minus_one).0

  counting :
      ((check_ctr b p order minus_one).1 ≡ true)
      × ((j : ℕ)
          → (counted_off.page j).cntr
            ≡ (if leb p j && ltb j (p + 2 ^ order) then pos 0 else (b.page j).cntr))
  unfolding counted_off check_ctr
  counting =
      check_ctr_loop-done giving b (2 ^ order) p (λ j x y. ground (arith, v.counted j, used j x y))

  still : SameButCounters b counted_off
  unfolding counted_off check_ctr
  still = check_ctr_loop-same b (2 ^ order) p minus_one

  alone : (j : ℕ) → cover ls j + in_block p order j ≤ 1
  alone j = elim (Bool-cases (leb p j && ltb j (p + 2 ^ order))) [
    | inl i ↦ ground (arith, used j, in_block-in p order j)
    | inr o ↦ ground (arith, in_block-out p order j, v.tiling.once j)
  ]

  out : Buddy × ℕ × ℕ
  out = merge_loop counted_off (max_order - 1 - order) p (p % 2048) order

  merged : Merged total counted_off ls p order out
  unfolding out
  merged =
      merge_loop-Merged (max_order - 1 - order) p (p % 2048) order v.groups
        (IsShaped-same still v.shape) v.tiling (omega arith) refl a w alone

  free_page-is : free_page b p order ≡ put_out out
  unfolding free_page out counted_off
  free_page-is = rw counting.0 (
      free_counted-is (check_ctr b p order minus_one).0 p order
        (still.page_no p ∙ v.numbered p (omega (arith, pow_pos order))))

  put_free : cover merged.lists out.1 ≡ 0
  put_free = omega (arith, merged.covers out.1, alone out.1, in_block_self out.1 out.2)

  lists_now : Lists
  lists_now = update merged.lists out.2 (merged.lists out.2 ++ out.1 ∷ [])

  end_mem :
      (q : ℕ)
      → has q (merged.lists out.2 ++ out.1 ∷ []) ≡ ((q == out.1) || has q (merged.lists out.2))
  end_mem q = ground (arith, has-append q (merged.lists out.2) (out.1 ∷ []))

  end_cover :
      (j : ℕ)
      → cover_list out.2 (merged.lists out.2 ++ out.1 ∷ []) j
        ≡ cover_list out.2 (merged.lists out.2) j + in_block out.1 out.2 j
  unfolding cover_list
  end_cover j = omega (arith, cover_list-append out.2 (merged.lists out.2) (out.1 ∷ []) j)

  released_covers : (j : ℕ) → cover lists_now j ≡ cover ls j + in_block p order j
  unfolding lists_now
  released_covers j =
      cover-enter merged.tiling out.2 merged.small out.1 _ end_mem end_cover j ∙ merged.covers j

  released-IsTiling : IsTiling total lists_now
  unfolding lists_now
  released-IsTiling =
      IsTiling-enter merged.tiling out.2 merged.small out.1 _ end_mem end_cover merged.aligned
        merged.within (λ j. omega (arith, merged.covers j, alone j))

  put_numbers :
      (j : ℕ)
      → (((put_out out).page j).cntr ≡ (counted_off.page j).cntr)
        × (j < total → ((put_out out).page j).page_no ≡ j)
  unfolding put_block update
  put_numbers j = (
    ground (arith, merged.numbers.cntr j),
    λ k. ground (arith, merged.numbers.page_no j, still.page_no j, v.numbered j k),
  )

  -- From a valid state COMEX_free_page of an aligned block of used pages within the pool makes exactly
  -- these pages free, and leaves a valid state.
  pub free_page-Released : Released total ls order p (free_page b p order)
  free_page-Released = rw free_page-is (record {
    lists = lists_now;
    valid = record {
      groups = v.groups;
      shape = unfold lists_now in put_block-IsShaped merged.shape out.1 put_free out.2 merged.small;
      tiling = released-IsTiling;
      numbered = λ j k. (put_numbers j).1 k;
      counted = λ j k. ground (
        arith,
        put_numbers j,
        counting.1 j,
        v.counted j k,
        released_covers j,
        released-IsTiling.once j,
        in_block-in p order j,
        in_block-out p order j,
      );
    };
    covers = released_covers;
  })

-- From a valid state a release of a block with a page that is free already changes nothing but
-- counters: the lists, their counts and the marks stay.
pub free_page-refused :
    {total : ℕ} {b : Buddy} {ls : Lists}
    → IsValid total b ls
    → (order p j : ℕ) → p ≤ j
    → j < p + 2 ^ order
    → j < total
    → cover ls j ≡ 1
    → SameButCounters b (free_page b p order)
unfolding free_page check_ctr
free_page-refused {b} {ls} v order p j x y z c =
    rw (check_ctr_loop-refused giving b (2 ^ order) p j x y (λ e. cc (free_counter e)))
      (check_ctr_loop-same b (2 ^ order) p minus_one)
  where
    free_counter : (b.page j).cntr ≡ pos 1 → pos 0 ≡ pos 1
    free_counter e = ground (arith, v.counted j z)
