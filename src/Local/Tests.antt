-- ===== src/Local/Tests.antt =====
-- A page swapped out to the pool.
use comex.Base.{ℕ, refl, arith}
use comex.Base.Int.{pos}
use comex.Buddy.{Buddy, free_page}
use comex.Buddy.Links.{max_order}
use comex.Buddy.Blocks.{cover_none}
use comex.Buddy.Release.{Released, free_page-Released}
use comex.Init.{init_areas, init_pages}
use comex.Init.Fresh.{no_blocks, fresh-IsValid}
use comex.Layout.{Sizes}
use comex.Local.{move_to_comex}
use comex.Local.Store.{Stored, move_to_comex-Stored}

abbrev sizes : Sizes
sizes = record { total_nodes = 3; total_pages = 1024; total_write_out = 32; total_read_in = 64 }

abbrev memory : Buddy
memory = record {
  heads = record { next = λ p. 0; prev = λ p. 0 };
  nr_free = λ o. pos 0;
  page = λ j. record { page_no = 0; private = 0; mapcount = pos 0; cntr = pos 0 };
}

-- Pages 8 to 11 are free.
abbrev four_free : Buddy
four_free = free_page (init_pages (init_areas memory max_order 0) 1024 0) 8 2

four_freed : Released 1024 no_blocks 2 8 four_free
four_freed =
    free_page-Released (fresh-IsValid memory 1024 refl) 2 8 (omega arith) refl (omega arith)
      (λ j x y. cover_none j)

-- A memory of zeros.
abbrev zeros : ℕ → ℕ
zeros offset = 0

move_to_comex-Stored_example :
    Stored sizes four_free four_freed.lists zeros 77 (move_to_comex sizes four_free zeros 77)
move_to_comex-Stored_example = move_to_comex-Stored sizes four_freed.valid zeros 77
