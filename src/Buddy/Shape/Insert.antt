-- ===== src/Buddy/Shape/Insert.antt =====
-- A block that enters a list, in front or at the end, and a page that loses its mark.
use mathlib.Core.List.{map-append}
use comex.Base.{
  ℕ, ◌+◌, ◌<◌, ◌≡◌, refl, ◌⊎◌, inl, inr, true, false, ◌||◌, List, [], ◌∷◌, ◌++◌, map, arith, ◌==◌,
  length, length-append, update, Bool-cases, ==_iff,
}
use comex.Base.Int.{◌+ℤ◌}
use comex.Buddy.{
  Buddy, set_heads, rmv_page_order, inc_nr_free, set_page_order, expand_step, put_block,
}
use comex.Buddy.Links.{max_order, Heads, lru, list_add, list_add_tail}
use comex.Buddy.Links.Ring.{has, ◌∉◌, IsRing, has-append}
use comex.Buddy.Links.Ops.{
  IsRing-frame, SameOff, list_add_lem, list_add-SameOff, list_add_tail_lem, list_add_tail-SameOff,
}
use comex.Buddy.Blocks.{Lists, cover}
use comex.Buddy.Shape.{IsShaped, has-lru, not_listed, rings_apart}

module _ {total : ℕ} {b : Buddy} {ls : Lists} (s : IsShaped total b ls) (p : ℕ)
    (free : cover ls p ≡ 0) where
  -- A page in no list may lose its mark.
  pub rmv_page_order-IsShaped : IsShaped total (rmv_page_order b p) ls
  unfolding update
  rmv_page_order-IsShaped = record {
    ring = s.ring;
    count = s.count;
    marked = λ o q h i. ground (arith, s.marked o q h i, not_listed ls p free o h);
    listed = λ o q h l i. ground (arith, s.listed o q h l);
  }

  module _ (o : ℕ) (h : o < max_order) where
    p_fresh : lru p ∉ (o ∷ map lru (ls o))
    p_fresh = ground (arith, has-lru (lru p) (ls o), not_listed ls p free o h)

    -- Both ways to enter a list, from what the new links and the new list are.
    enter-IsShaped :
        (g : Heads) (ps : List ℕ)
        → IsRing g o (map lru ps)
        → SameOff (lru p ∷ o ∷ map lru (ls o)) b.heads g
        → length ps ≡ length (ls o) + 1
        → ((q : ℕ) → has q ps ≡ ((q == p) || has q (ls o)))
        → IsShaped total (set_page_order (inc_nr_free (set_heads b g) o) p o) (update ls o ps)
    unfolding update ◌+ℤ◌
    enter-IsShaped g ps r same len mem = record {
      ring = λ o' h'. IsRing-now o' h' (Bool-cases (o' == o));
      count = λ o' h'. ground (arith, s.count o' h', s.count o h);
      marked = λ o' q h' i. ground (arith, s.marked o' q h', mem q, not_listed ls p free o' h');
      listed = λ o' q h' l i. ground (arith, s.listed o' q h' l, mem q);
    }
      where
        IsRing-now :
            (o' : ℕ)
            → o' < max_order
            → ((o' == o) ≡ true) ⊎ ((o' == o) ≡ false)
            → IsRing g o' (map lru (update ls o ps o'))
        IsRing-now o' h' (inl t) = rw (t, (==_iff o' o).0 t) r
        IsRing-now o' h' (inr f) = rw f (
            IsRing-frame (lru p ∷ o ∷ map lru (ls o)) b.heads g o' (map lru (ls o')) same
              (λ q i. ground (
                arith,
                rings_apart s o o' h h' (ground arith) q i,
                has-lru q (ls o'),
                not_listed ls p free o' h',
              ))
              (s.ring o' h'))

    pub put_block-IsShaped : IsShaped total (put_block b p o) (update ls o (ls o ++ p ∷ []))
    unfolding put_block
    put_block-IsShaped =
        enter-IsShaped (list_add_tail b.heads (lru p) o) (ls o ++ p ∷ [])
          (rw map-append
            (list_add_tail_lem b.heads o (lru p) (map lru (ls o)) p_fresh (s.ring o h)))
          (list_add_tail-SameOff b.heads o (lru p) (map lru (ls o)) (s.ring o h))
          (ground (arith, length-append (ls o) (p ∷ [])))
          (λ q. ground (arith, has-append q (ls o) (p ∷ [])))

-- A round of COMEX_expand puts its block in front.
pub expand_step-IsShaped :
    {total : ℕ} {b : Buddy} {ls : Lists}
    → IsShaped total b ls
    → (page size o : ℕ) → o < max_order
    → cover ls (page + size) ≡ 0
    → IsShaped total (expand_step b page size o o) (update ls o ((page + size) ∷ ls o))
unfolding expand_step
expand_step-IsShaped {b} {ls} s page size o h free =
    enter-IsShaped s (page + size) free o h (list_add b.heads (lru (page + size)) o)
      ((page + size) ∷ ls o)
      (list_add_lem b.heads o (lru (page + size)) (map lru (ls o))
        (p_fresh s (page + size) free o h) (s.ring o h))
      (list_add-SameOff b.heads o (lru (page + size)) (map lru (ls o)) (s.ring o h)) (omega arith)
      (λ q. refl)
