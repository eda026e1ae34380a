-- ===== src/Buddy/Alloc.antt =====
-- COMEX_rmqueue_smallest: what an allocation returns, and what it does to the free pages.
pub mod Expand
pub mod Search
use native.Mathlib.Nat.{two-pow-succ}
use comex.Base.{
  ℕ, zero, suc, ◌+◌, ◌-◌, ◌*◌, ◌/◌, ◌%◌, ◌^◌, ◌≤◌, ◌<◌, ◌≡◌, refl, sym, ap, ◌∙◌, ◌≢◌, ◌⊎◌, inl, inr,
  Bool, true, false, ◌&&◌, ◌||◌, List, [], ◌∷◌, ◌++◌, arith, ◌==◌, ltb, leb, if◌then◌else◌, update,
  Bool-cases, map, ==_refl,
}
use comex.Base.Bits.{pow_pos}
use comex.Base.Int.{ℤ, pos, minus_one}
use comex.Buddy.{
  Buddy, expand, check_ctr, take_counted, take_page, take_block, rmqueue_loop, rmqueue_smallest,
}
use comex.Buddy.Links.{max_order, lru, list_entry, list_empty}
use comex.Buddy.Links.Ring.{has}
use comex.Buddy.Links.Ops.{list_empty_iff}
use comex.Buddy.Blocks.{Lists, IsTiling, in_block, cover, in_block-in, in_block-out}
use comex.Buddy.Blocks.Tiling.{cover-leave, IsTiling-leave}
use comex.Buddy.Shape.{IsShaped}
use comex.Buddy.Shape.Unlink.{unlink, unlink-IsShaped}
use comex.Buddy.Counters.{
  taking, check_ctr_loop-done, check_ctr_loop-same, IsShaped-same, SameButCounters,
}
use comex.Buddy.Valid.{IsValid}
use Expand.{Expanded, expand_loop-Expanded}

-- A block of order `order` at `p` left the free pages, and nothing else changed among them.
pub record Taken (total : ℕ) (ls : Lists) (order p : ℕ) (b' : Buddy) : Type 0 where
  pub lists : Lists
  pub valid : IsValid total b' lists
  pub aligned : p % 2 ^ order ≡ 0
  pub within : p + 2 ^ order ≤ total
  pub covers : (j : ℕ) → cover lists j + in_block p order j ≡ cover ls j

module _ {total : ℕ} {b : Buddy} {ls : Lists} (v : IsValid total b ls) (order current : ℕ)
    (l : order ≤ current) (h : current < max_order) (p : ℕ) (ps : List ℕ)
    (e : ls current ≡ p ∷ ps) where
  p_listed : has p (ls current) ≡ true
  p_listed = rw e (ground arith)

  head_page : list_entry (b.heads.next current) ≡ p
  head_page = let r = v.shape.ring current h in let c = (rw e at r).chain in omega (arith, c.0)

  rest : Lists
  rest = update ls current ps

  split :
      Expanded total
        (unlink b current p)
        rest
        p
        order
        current
        (expand (unlink b current p) p order current current)
  unfolding expand rest
  split =
      expand_loop-Expanded p order current (unlink-IsShaped v.shape current h [] p ps e)
        (IsTiling-leave v.tiling current h p [] ps e) l h (v.tiling.aligned current p h p_listed)
        (v.tiling.within current p h p_listed)
        (λ j. omega (arith, cover-leave v.tiling current h p [] ps e j, v.tiling.once j))

  taken_covers : (j : ℕ) → cover split.lists j + in_block p order j ≡ cover ls j
  unfolding rest
  taken_covers j = split.covers j ∙ cover-leave v.tiling current h p [] ps e j

  split_off : Buddy
  split_off = expand (unlink b current p) p order current current

  split_numbers :
      (j : ℕ)
      → ((split_off.page j).cntr ≡ (b.page j).cntr) × (j < total → (split_off.page j).page_no ≡ j)
  unfolding split_off update
  split_numbers j = (
    ground (arith, split.numbers.cntr j),
    λ k. ground (arith, split.numbers.page_no j, v.numbered j k),
  )

  p-lt : p < total
  p-lt = omega (arith, split.within, pow_pos order)

  in_range : (j : ℕ) → p ≤ j → j < p + 2 ^ order → in_block p order j ≡ 1
  in_range j x y = in_block-in p order j x y

  unused : (j : ℕ) → p ≤ j → j < p + 2 ^ order → (split_off.page j).cntr ≡ pos 0
  unused j x y = ground (
    arith,
    split_numbers j,
    v.counted j,
    split.within,
    taken_covers j,
    v.tiling.once j,
    in_range j x y,
  )

  counting :
      ((check_ctr split_off p order (pos 1)).1 ≡ true)
      × ((j : ℕ)
          → ((check_ctr split_off p order (pos 1)).0.page j).cntr
            ≡ (if leb p j && ltb j (p + 2 ^ order) then pos 1 else (split_off.page j).cntr))
  unfolding check_ctr
  counting = check_ctr_loop-done taking split_off (2 ^ order) p unused

  still : SameButCounters split_off (check_ctr split_off p order (pos 1)).0
  unfolding check_ctr
  still = check_ctr_loop-same split_off (2 ^ order) p (pos 1)

  taken : Taken total ls order p (check_ctr split_off p order (pos 1)).0
  taken = record {
    lists = split.lists;
    valid = record {
      groups = v.groups;
      shape = IsShaped-same still (unfold split_off in split.shape);
      tiling = split.tiling;
      numbered = λ j k. still.page_no j ∙ (split_numbers j).1 k;
      counted = λ j k. counted_after j k;
    };
    aligned = split.aligned;
    within = split.within;
    covers = taken_covers;
  }
    where
      counted_after :
          (j : ℕ)
          → j < total
          → ((check_ctr split_off p order (pos 1)).0.page j).cntr ≡ pos (1 - cover split.lists j)
      counted_after j k = ground (
        arith,
        counting.1 j,
        split_numbers j,
        v.counted j,
        taken_covers j,
        v.tiling.once j,
        in_range j,
        in_block-out p order j,
      )

  counted_as : take_counted split_off p order ≡ ((check_ctr split_off p order (pos 1)).0, pos p)
  unfolding take_counted
  counted_as = rw ((split_numbers p).1 p-lt, counting.0, still.page_no p, (split_numbers p).1 p-lt)

  taken_as : take_block b order current ≡ ((check_ctr split_off p order (pos 1)).0, pos p)
  unfolding take_block
  taken_as = rw head_page (unfold take_page split_off in counted_as)

  pub take_block_lem :
      ((take_block b order current).1 ≡ pos p)
      × Taken total ls order p (take_block b order current).0
  take_block_lem = rw taken_as (refl, taken)
