-- ===== src/Swap/Pageout.antt =====
-- Writing a page back when memory is short: pageout of `Kernel Modification/vmscan.c`, and
-- set_page_dirty of `Kernel Modification/page-writeback.c`. What the page's mapping does is an
-- argument.
pub mod Lost
use comex.Base.{
  ℕ, suc, ◌+◌, ◌*◌, Bool, true, false, ◌&&◌, ◌||◌, not, Option, none, some, ◌==◌, if◌then◌else◌,
}
use comex.Base.Int.{ℤ, pos, ◌==ℤ◌}
use comex.Swap.Devices.{is_comex}

-- The flags of the page that these functions read and change, and how often the page was written
-- to its mapping
pub record PageFlags : Type 0 where
  pub dirty : Bool
  pub writeback : Bool
  pub reclaim : Bool
  pub locked : Bool
  pub writes : ℕ

-- pageout_t
pub data PageoutT : Type 0 where
  page_keep page_activate page_success page_clean : PageoutT

-- The operations of an address space: writepage with the flags that it leaves and its result,
-- may_write_to_queue, and set_page_dirty, where it is not NULL, or else __set_page_dirty_buffers
pub record Mapping : Type 0 where
  pub writepage : Option (PageFlags → PageFlags × ℤ)
  pub may_write : Bool
  pub set_page_dirty : PageFlags → PageFlags × ℤ

-- What pageout asks of the page: is_page_cache_freeable, page_has_private, try_to_free_buffers
pub record PageAnswers : Type 0 where
  pub freeable : Bool
  pub has_private : Bool
  pub buffers_freed : Bool

-- AOP_WRITEPAGE_ACTIVATE of linux/fs.h
module _ (aop_writepage_activate : ℕ) where
  -- From the label COMEX_pageout on
  unfoldable pub comex_pageout : PageFlags → PageFlags × PageoutT
  comex_pageout f = (if f.writeback then f else record f { reclaim = false }, page_success)

  -- From clear_page_dirty_for_io on; an error of writepage is only recorded.
  unfoldable pub write_out : (PageFlags → PageFlags × ℤ) → PageFlags → PageFlags × PageoutT
  write_out writepage f =
      let ready = record f { dirty = false; reclaim = true } in
      let (after, res) = writepage ready in
      let counted = record after { writes = suc f.writes } in
      if not f.dirty
      then (f, page_clean)
      else if res ==ℤ pos aop_writepage_activate
      then (record counted { reclaim = false }, page_activate)
      else comex_pageout counted

  unfoldable pub pageout :
      PageAnswers → Option Mapping → (type : ℕ) → PageFlags → PageFlags × PageoutT
  pageout a mapping type f =
      let taken = record f { writeback = false; dirty = false; reclaim = false; locked = false } in
      if not a.freeable then (f, page_keep) else elim mapping [
        | none ↦
            if a.has_private && a.buffers_freed
            then (record f { dirty = false }, page_clean)
            else (f, page_keep)
        | some mp ↦ if is_comex type then comex_pageout taken else elim mp.writepage [
          | none ↦ (f, page_activate)
          | some w ↦ if not mp.may_write then (f, page_keep) else write_out w f
        ]
      ]

-- set_page_dirty, with page_mapping of the page and the type of the entry that it carries
unfoldable pub set_page_dirty : Option Mapping → (type : ℕ) → PageFlags → PageFlags × ℤ
set_page_dirty mapping type f = elim mapping [
  | none ↦ if f.dirty then (f, pos 0) else (record f { dirty = true }, pos 1)
  | some mp ↦
      let f' = record f { reclaim = false } in
      if is_comex type then (record f' { dirty = true }, pos 0) else mp.set_page_dirty f'
]
