-- ===== src/Init/Fresh.antt =====
-- After the first two loops no page is free.
use comex.Base.{
  ℕ, zero, suc, ◌+◌, ◌%◌, ◌<◌, ◌≡◌, refl, false, [], ◌∷◌, arith, ◌==◌, update, ==_iff, Bool-cases,
  inl, inr,
}
use comex.Base.Int.{pos, minus_one}
use comex.Buddy.{Buddy}
use comex.Buddy.Links.{max_order, Heads, Ptr, lru, init_list}
use comex.Buddy.Links.Ring.{IsRing}
use comex.Buddy.Links.Ops.{init_list-IsRing, IsRing-frame, SameOff}
use comex.Buddy.Blocks.{Lists, cover, cover_none}
use comex.Buddy.Valid.{IsValid}
use comex.Init.{init_areas, init_pages}

abbrev pub no_blocks : Lists
no_blocks o = []

init_list-SameOff : (h : Heads) (a : Ptr) → SameOff (a ∷ []) h (init_list h a)
unfolding init_list update
init_list-SameOff h a p o = ground arith

-- An empty list stays one when another address is made an empty list.
empty-keeps :
    (h : Heads) (a b : Ptr) → (a == b) ≡ false → IsRing h a [] → IsRing (init_list h b) a []
empty-keeps h a b n r =
    IsRing-frame (b ∷ []) h (init_list h b) a [] (init_list-SameOff h b) (λ p i. ground arith) r

-- The areas below `i` are empty, and their count is 0.
pub record AreasDone (b : Buddy) (i : ℕ) : Type 0 where
  pub ring : (o : ℕ) → o < i → IsRing b.heads o []
  pub count : (o : ℕ) → o < i → b.nr_free o ≡ pos 0

init_areas-AreasDone :
    (n i k : ℕ) (b : Buddy) → n + i ≡ k → AreasDone b i → AreasDone (init_areas b n i) k
unfolding init_areas update
init_areas-AreasDone zero i k b e d = record {
  ring = λ o h. d.ring o (omega arith);
  count = λ o h. d.count o (omega arith);
}
init_areas-AreasDone (suc n) i k b e d = init_areas-AreasDone n (i + 1) k _ (omega arith) (record {
  ring = λ o h. elim (Bool-cases (o == i)) [
    | inl t ↦ let e' = (==_iff o i).0 t in rw e' (init_list-IsRing b.heads i)
    | inr f ↦ empty-keeps b.heads o i f (d.ring o (ground arith))
  ];
  count = λ o h. ground (arith, d.count o);
})

-- The pages below `i` are numbered, unmarked and counted as used.
pub record PagesDone (b : Buddy) (i : ℕ) : Type 0 where
  pub areas : AreasDone b max_order
  pub page_no : (j : ℕ) → j < i → (b.page j).page_no ≡ j
  pub mapcount : (j : ℕ) → j < i → (b.page j).mapcount ≡ minus_one
  pub cntr : (j : ℕ) → j < i → (b.page j).cntr ≡ pos 1

init_pages-PagesDone :
    (n i k : ℕ) (b : Buddy) → n + i ≡ k → PagesDone b i → PagesDone (init_pages b n i) k
unfolding init_pages update
init_pages-PagesDone zero i k b e d = record {
  areas = d.areas;
  page_no = λ j h. d.page_no j (omega arith);
  mapcount = λ j h. d.mapcount j (omega arith);
  cntr = λ j h. d.cntr j (omega arith);
}
init_pages-PagesDone (suc n) i k b e d = init_pages-PagesDone n (i + 1) k _ (omega arith) (record {
  areas = record {
    ring = λ o h. empty-keeps b.heads o (lru i) (ground arith) (d.areas.ring o h);
    count = d.areas.count;
  };
  page_no = λ j h. ground (arith, d.page_no j);
  mapcount = λ j h. ground (arith, d.mapcount j);
  cntr = λ j h. ground (arith, d.cntr j);
})

cover-no_blocks : (j : ℕ) → cover no_blocks j ≡ 0
cover-no_blocks j = cover_none j

-- Whatever the memory held, after the two loops the state is valid, with no block free.
pub fresh-IsValid :
    (memory : Buddy) (total : ℕ)
    → total % 1024 ≡ 0
    → IsValid total (init_pages (init_areas memory max_order 0) total 0) no_blocks
fresh-IsValid memory total g = record {
  groups = g;
  shape = record {
    ring = done.areas.ring;
    count = done.areas.count;
    marked = λ o p h i. absurd (cc);
    listed = λ o p h l i. ground (arith, done.mapcount p l);
  };
  tiling = record {
    aligned = λ o p h i. absurd (cc);
    within = λ o p h i. absurd (cc);
    once = λ j. omega (arith, cover-no_blocks j);
  };
  numbered = done.page_no;
  counted = λ j h. ground (arith, done.cntr j h, cover-no_blocks j);
}
  where
    done : PagesDone (init_pages (init_areas memory max_order 0) total 0) total
    done = init_pages-PagesDone total 0 total _ (omega arith) (record {
      areas =
          init_areas-AreasDone max_order 0 max_order memory refl
            (record { ring = λ o h. absurd (omega arith); count = λ o h. absurd (omega arith) });
      page_no = λ j h. absurd (omega arith);
      mapcount = λ j h. absurd (omega arith);
      cntr = λ j h. absurd (omega arith);
    })
