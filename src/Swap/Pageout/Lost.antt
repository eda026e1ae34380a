-- ===== src/Swap/Pageout/Lost.antt =====
-- What is written when pageout reports success.
use comex.Base.{ℕ, suc, ◌≡◌, ◌≢◌, refl, true, false, ◌&&◌, Option, none, some}
use comex.Base.Int.{ℤ, pos}
use comex.Swap.Devices.{is_comex}
use comex.Swap.Pageout.{
  PageFlags, PageoutT, page_keep, page_activate, page_success, page_clean, Mapping, PageAnswers,
  comex_pageout, pageout, set_page_dirty,
}

-- writepage as it is documented: if it does not ask for the page to be activated, it unlocks the page.
unfoldable pub IsWriter : (aop_writepage_activate : ℕ) → (PageFlags → PageFlags × ℤ) → Type 0
IsWriter activate w =
    (f : PageFlags)
    → ((w f).1 ≢ pos activate → (w f).0.locked ≡ false)
      × ((w f).1 ≡ pos activate → (w f).0.locked ≡ f.locked)

module _ (activate : ℕ) (a : PageAnswers) (mapping : Option Mapping) (type : ℕ)
    (f : PageFlags) where
  -- The flags with which writepage is called
  abbrev pub ready : PageFlags
  ready = record f { dirty = false; reclaim = true }

  -- The page is to be written by `w`: it is freeable, its entry is not of COMEX, and its mapping may
  -- write.
  pub record Writable (w : PageFlags → PageFlags × ℤ) : Type 0 where
    pub mp : Mapping
    pub freeable : a.freeable ≡ true
    pub mapped : mapping ≡ some mp
    pub not_comex : is_comex type ≡ false
    pub writer : mp.writepage ≡ some w
    pub may_write : mp.may_write ≡ true

  -- How pageout ends, and when.
  pub data PagedOut : PageFlags × PageoutT → Type 0 where
    not_freeable : a.freeable ≡ false → PagedOut (f, page_keep)
    orphan_kept :
        a.freeable ≡ true
        → mapping ≡ none
        → (a.has_private && a.buffers_freed) ≡ false
        → PagedOut (f, page_keep)
    orphan_freed :
        a.freeable ≡ true
        → mapping ≡ none
        → a.has_private ≡ true
        → a.buffers_freed ≡ true
        → PagedOut (record f { dirty = false }, page_clean)
    not_written :
        (mp : Mapping) (f' : PageFlags)
        → a.freeable ≡ true
        → mapping ≡ some mp
        → is_comex type ≡ true
        → f'.locked ≡ false
        → f'.dirty ≡ false
        → f'.reclaim ≡ false
        → f'.writes ≡ f.writes
        → PagedOut (f', page_success)
    no_writepage :
        (mp : Mapping)
        → a.freeable ≡ true
        → mapping ≡ some mp
        → is_comex type ≡ false
        → mp.writepage ≡ none
        → PagedOut (f, page_activate)
    congested :
        (mp : Mapping) (w : PageFlags → PageFlags × ℤ)
        → a.freeable ≡ true
        → mapping ≡ some mp
        → is_comex type ≡ false
        → mp.writepage ≡ some w
        → mp.may_write ≡ false
        → PagedOut (f, page_keep)
    was_clean :
        (w : PageFlags → PageFlags × ℤ) → Writable w → f.dirty ≡ false → PagedOut (f, page_clean)
    activated :
        (w : PageFlags → PageFlags × ℤ) (f' : PageFlags)
        → Writable w
        → f.dirty ≡ true
        → (w ready).1 ≡ pos activate
        → f'.locked ≡ f.locked
        → f'.reclaim ≡ false
        → f'.writes ≡ suc f.writes
        → PagedOut (f', page_activate)
    written :
        (w : PageFlags → PageFlags × ℤ) (f' : PageFlags)
        → Writable w
        → f.dirty ≡ true
        → (w ready).1 ≢ pos activate
        → f'.locked ≡ false
        → (f'.writeback ≡ false → f'.reclaim ≡ false)
        → f'.writes ≡ suc f.writes
        → PagedOut (f', page_success)

  -- The mapping that there is has a writepage that unlocks as documented.
  abbrev pub WriterOk : Type 0
  WriterOk =
      (mp : Mapping) (w : PageFlags → PageFlags × ℤ)
      → mapping ≡ some mp
      → mp.writepage ≡ some w
      → IsWriter activate w

-- If a page in the swap cache under an entry of COMEX is made dirty, so that its contents are not those
-- that add_to_swap has copied, and then paged out, pageout reports success and leaves the page clean
-- and unlocked, and the page has not been written.
pub pageout-set_page_dirty :
    (activate : ℕ) (a : PageAnswers) (mp : Mapping) (type : ℕ) (f : PageFlags)
    → a.freeable ≡ true
    → is_comex type ≡ true
    → let dirtied = (set_page_dirty (some mp) type f).0 in
      let out = pageout activate a (some mp) type dirtied in
      (dirtied.dirty ≡ true)
      × (out.1 ≡ page_success)
      × ((out.0).dirty ≡ false)
      × ((out.0).locked ≡ false)
      × ((out.0).writes ≡ f.writes)
unfolding pageout set_page_dirty comex_pageout
pageout-set_page_dirty activate a mp type f y c = rw (y, c) (refl, refl, refl, refl, refl)
