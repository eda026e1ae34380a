-- ===== src/Lend/Tests.antt =====
-- Runs of the answer to a request.
use comex.Base.{refl, arith}
use comex.Base.Int.{pos}
use comex.Buddy.{Buddy, free_page}
use comex.Buddy.Links.{max_order}
use comex.Buddy.Blocks.{cover_none}
use comex.Buddy.Release.{Released, free_page-Released}
use comex.Init.{init_areas, init_pages}
use comex.Init.Fresh.{no_blocks, fresh-IsValid}
use comex.Lend.{pages_request}
use comex.Lend.Grant.{Answer, pages_request-Answer}

abbrev memory : Buddy
memory = record {
  heads = record { next = λ p. 0; prev = λ p. 0 };
  nr_free = λ o. pos 0;
  page = λ j. record { page_no = 0; private = 0; mapcount = pos 0; cntr = pos 0 };
}

-- 64 pages from page 128 on are free.
abbrev some_free : Buddy
some_free = free_page (init_pages (init_areas memory max_order 0) 1024 0) 128 6

some_freed : Released 1024 no_blocks 6 128 some_free
some_freed =
    free_page-Released (fresh-IsValid memory 1024 refl) 6 128 (omega arith) refl (omega arith)
      (λ j x y. cover_none j)

pages_request-Answer_example :
    Answer 1024 some_free some_freed.lists 3 5 7 (pages_request some_free 7 3)
pages_request-Answer_example = pages_request-Answer some_freed.valid 7 3 (omega arith)
