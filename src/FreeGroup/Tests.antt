-- ===== src/FreeGroup/Tests.antt =====
-- Runs of the queue of lent pages.
use comex.Base.{◌^◌, ◌≡◌, refl, [], ◌∷◌, ◌++◌, true, false, arith}
use comex.Base.Int.{pos}
use comex.FreeGroup.{FreeGroup, page_receive, freelist_getpage}
use comex.FreeGroup.Fifo.{
  IsValid, pages, range, Dequeued, page_receive-enqueues, freelist_getpage-dequeues,
}

-- The pages 9 to 10 are lent.
abbrev two_pages : FreeGroup
two_pages = record {
  total_page = pos 2;
  back_off = 4;
  locked = false;
  free_group = record { page_start = 9; page_end = 10 } ∷ [];
}

two_pages-IsValid : IsValid two_pages
two_pages-IsValid = record { runs = (omega arith, tt); counted = refl; unlocked = refl }

freelist_getpage-dequeues_example : Dequeued two_pages (freelist_getpage two_pages)
freelist_getpage-dequeues_example = freelist_getpage-dequeues two_pages two_pages-IsValid refl

page_receive-enqueues_example :
    IsValid (page_receive 10 true two_pages (pos 32) 5)
    × (pages (page_receive 10 true two_pages (pos 32) 5).free_group
        ≡ pages two_pages.free_group ++ range 32 (2 ^ 5))
page_receive-enqueues_example = page_receive-enqueues 10 two_pages 32 5 two_pages-IsValid
