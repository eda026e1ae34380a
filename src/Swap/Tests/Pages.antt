-- ===== src/Swap/Tests/Pages.antt =====
-- A run of pageout.
use comex.Base.{true, false, some}
use comex.Base.Int.{ℤ, pos}
use comex.Swap.Pageout.{PageFlags, Mapping, PageAnswers}

-- swap_writepage starts the write and unlocks the page.
abbrev start_write : PageFlags → PageFlags × ℤ
start_write f = (record f { writeback = true; locked = false }, pos 0)

abbrev swap_mapping : Mapping
swap_mapping = record {
  writepage = some start_write;
  may_write = true;
  set_page_dirty = λ f. (record f { dirty = true }, pos 1);
}

abbrev dirty_page : PageFlags
dirty_page = record { dirty = true; writeback = false; reclaim = false; locked = true; writes = 0 }

abbrev freeable_page : PageAnswers
freeable_page = record { freeable = true; has_private = false; buffers_freed = false }
