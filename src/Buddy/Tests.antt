-- ===== src/Buddy/Tests.antt =====
-- The theorems on the allocator at a pool of 1024 pages.
use comex.Base.{ℕ, ◌≤◌, ◌≡◌, refl, [], ◌∷◌, arith}
use comex.Base.Int.{pos}
use comex.Buddy.{Buddy, free_page, rmqueue_smallest}
use comex.Buddy.Links.{max_order, Heads, init_list, list_add}
use comex.Buddy.Links.Ring.{IsRing}
use comex.Buddy.Links.Ops.{init_list-IsRing, list_add_lem}
use comex.Buddy.Blocks.{cover, cover_none, in_block-out}
use comex.Buddy.Valid.{IsValid}
use comex.Buddy.Alloc.Search.{Outcome, rmqueue_smallest-Outcome}
use comex.Buddy.Release.{Released, free_page-Released}
use comex.Init.{init_areas, init_pages}
use comex.Init.Fresh.{no_blocks, fresh-IsValid}

abbrev empty_heads : Heads
empty_heads = record { next = λ p. 0; prev = λ p. 0 }

abbrev memory : Buddy
memory = record {
  heads = empty_heads;
  nr_free = λ o. pos 7;
  page = λ j. record { page_no = 0; private = 3; mapcount = pos 0; cntr = pos 9 };
}

-- All pages are in use.
abbrev all_used : Buddy
all_used = init_pages (init_areas memory max_order 0) 1024 0

all_used-IsValid : IsValid 1024 all_used no_blocks
all_used-IsValid = fresh-IsValid memory 1024 refl

-- A block of two pages, 4 and 5, is free.
abbrev two_free : Buddy
two_free = free_page all_used 4 1

two_freed : Released 1024 no_blocks 1 4 two_free
two_freed =
    free_page-Released all_used-IsValid 1 4 (omega arith) refl (omega arith) (λ j x y. cover_none j)

free_page-Released_example : Released 1024 two_freed.lists 1 6 (free_page two_free 6 1)
free_page-Released_example =
    free_page-Released two_freed.valid 1 6 (omega arith) refl (omega arith) (λ j x y. elsewhere j x)
  where
    elsewhere : (j : ℕ) → 6 ≤ j → cover two_freed.lists j ≡ 0
    elsewhere j x =
        omega (arith, two_freed.covers j, cover_none j, in_block-out 4 1 j (ground arith))

rmqueue_smallest-Outcome_example :
    Outcome 1024 two_free two_freed.lists 0 0 (rmqueue_smallest two_free 0)
rmqueue_smallest-Outcome_example = rmqueue_smallest-Outcome two_freed.valid 0 (omega arith)

-- A list at address 0, with the entry 11 and then 12 behind it.
abbrev one_entry : Heads
one_entry = list_add (init_list empty_heads 0) 11 0

one_entry-IsRing : IsRing one_entry 0 (11 ∷ [])
one_entry-IsRing = list_add_lem _ 0 11 [] refl (init_list-IsRing empty_heads 0)
