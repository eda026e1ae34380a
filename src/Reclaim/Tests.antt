-- ===== src/Reclaim/Tests.antt =====
-- The release loop at a pool of 1024 pages in use.
use comex.Base.{ℕ, ◌+◌, ◌≤◌, refl, [], ◌∷◌, arith}
use comex.Base.Int.{pos}
use comex.Buddy.{Buddy}
use comex.Buddy.Links.{max_order}
use comex.Buddy.Blocks.{cover, cover_none}
use comex.Init.{init_areas, init_pages}
use comex.Init.Fresh.{no_blocks, fresh-IsValid}
use comex.Reclaim.{PageRun, free_runs}
use comex.Reclaim.Runs.{Freed, in_run, in_runs, free_runs-Freed}

abbrev memory : Buddy
memory = record {
  heads = record { next = λ p. 0; prev = λ p. 0 };
  nr_free = λ o. pos 0;
  page = λ j. record { page_no = 0; private = 0; mapcount = pos 0; cntr = pos 0 };
}

abbrev all_used : Buddy
all_used = init_pages (init_areas memory max_order 0) 1024 0

-- Pages 5 to 11, in blocks at 5, 6, 8 of 1, 2 and 4 pages
abbrev seven_pages : PageRun
seven_pages = record { page_no = 5; count = 7 }

free_runs-Freed_example :
    Freed 1024 no_blocks (in_runs (seven_pages ∷ [])) (free_runs all_used (seven_pages ∷ []))
unfolding in_runs in_run
free_runs-Freed_example =
    free_runs-Freed (seven_pages ∷ []) (fresh-IsValid memory 1024 refl) (omega arith, tt) once
  where
    once : (j : ℕ) → cover no_blocks j + in_runs (seven_pages ∷ []) j ≤ 1
    once j = ground (arith, cover_none j)
