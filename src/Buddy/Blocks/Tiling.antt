-- ===== src/Buddy/Blocks/Tiling.antt =====
-- How the tiling by free blocks changes when a block comes or goes.
use native.Mathlib.Nat.{two-pow-succ, mul-add-mod_self_right, div-add-mod'}
use comex.Base.{
  ℕ, suc, ◌+◌, ◌*◌, ◌/◌, ◌%◌, ◌^◌, ◌≤◌, ◌<◌, ◌≡◌, sym, ap, ◌∙◌, true, ◌||◌, List, ◌∷◌, ◌++◌, arith,
  ◌==◌, update,
}
use comex.Base.Bits.{pow_pos}
use comex.Buddy.Links.{max_order}
use comex.Buddy.Links.Ring.{has, has-append}
use comex.Buddy.Blocks.{
  Lists, IsTiling, in_block, cover_list, cover, cover-update, cover_list-append,
}

-- The halves of an aligned block are aligned.
pub halves-aligned : (p o : ℕ) → p % 2 ^ suc o ≡ 0 → (p % 2 ^ o ≡ 0) × ((p + 2 ^ o) % 2 ^ o ≡ 0)
halves-aligned p o h = (
  ap (λ n. n % 2 ^ o) (omega (arith, double, h))
      ∙ mul-add-mod_self_right (d + d) (2 ^ o) 0
      ∙ none_left,
  ap (λ n. n % 2 ^ o) (omega (arith, double, h))
      ∙ mul-add-mod_self_right (d + d + 1) (2 ^ o) 0
      ∙ none_left,
)
  where
    d : ℕ
    d = p / 2 ^ suc o

    double : p ≡ d * (2 ^ o + 2 ^ o) + p % 2 ^ suc o
    double = rw (← two-pow-succ o) (sym (div-add-mod' p (2 ^ suc o)))

    none_left : 0 % 2 ^ o ≡ 0
    none_left = omega (arith, pow_pos o)

module _ {total : ℕ} {ls : Lists} (t : IsTiling total ls) (o : ℕ) (h : o < max_order) (p : ℕ) where
  -- A block comes, in front or at the end, that overlaps none.
  module _ (ps : List ℕ) (mem : (q : ℕ) → has q ps ≡ ((q == p) || has q (ls o)))
      (covered : (j : ℕ) → cover_list o ps j ≡ cover_list o (ls o) j + in_block p o j) where
    pub cover-enter : (j : ℕ) → cover (update ls o ps) j ≡ cover ls j + in_block p o j
    cover-enter j = omega (arith, cover-update ls o ps j h, covered j)

    pub IsTiling-enter :
        p % 2 ^ o ≡ 0
        → p + 2 ^ o ≤ total
        → ((j : ℕ) → cover ls j + in_block p o j ≤ 1)
        → IsTiling total (update ls o ps)
    unfolding update
    IsTiling-enter a w f = record {
      aligned = λ o' q h' i. ground (arith, t.aligned o' q h', mem q);
      within = λ o' q h' i. ground (arith, t.within o' q h', mem q);
      once = λ j. omega (arith, cover-enter j, f j);
    }

  -- A block goes.
  module _ (ys zs : List ℕ) (e : ls o ≡ ys ++ p ∷ zs) where
    pub cover-leave : (j : ℕ) → cover (update ls o (ys ++ zs)) j + in_block p o j ≡ cover ls j
    unfolding cover_list
    cover-leave j = omega (
      arith,
      cover-update ls o (ys ++ zs) j h,
      ap (λ ps. cover_list o ps j) e,
      cover_list-append o ys zs j,
      cover_list-append o ys (p ∷ zs) j,
    )

    pub IsTiling-leave : IsTiling total (update ls o (ys ++ zs))
    unfolding update
    IsTiling-leave = record {
      aligned = λ o' q h' i. t.aligned o' q h' (still o' q i);
      within = λ o' q h' i. t.within o' q h' (still o' q i);
      once = λ j. omega (arith, cover-leave j, t.once j);
    }
      where
        still : (o' q : ℕ) → has q (update ls o (ys ++ zs) o') ≡ true → has q (ls o') ≡ true
        still o' q i = ground (arith, ap (has q) e, has-append q ys zs, has-append q ys (p ∷ zs))
