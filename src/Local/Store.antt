-- ===== src/Local/Store.antt =====
-- What is swapped out to the pool is read back, and disturbs no other page.
use comex.Base.{
  ℕ, ◌<◌, ◌≡◌, ◌≢◌, refl, ap, false, Option, none, some, leb, if◌then◌else◌, update_self, update_ne,
  arith, [],
}
use comex.Base.Int.{pos}
use comex.Buddy.{Buddy}
use comex.Buddy.Links.{max_order}
use comex.Buddy.Blocks.{Lists, cover, in_block-in}
use comex.Buddy.Valid.{IsValid}
use comex.Buddy.Alloc.{Taken}
use comex.Buddy.Alloc.Search.{nothing, block, rmqueue_smallest-Outcome}
use comex.Layout.{Sizes, local_page_offset}
use comex.Local.{move_to_comex, read_from_local}

local_page_offset-inj :
    (z : Sizes) (p q : ℕ) → local_page_offset z p ≡ local_page_offset z q → p ≡ q
unfolding local_page_offset
local_page_offset-inj z p q e = omega arith

-- Either a page that was free holds the contents now, and every other page what it held before, or
-- no page is free, and nothing has changed.
pub data Stored {ℓ} {A : Type ℓ} (z : Sizes) (b : Buddy) (ls : Lists) (memory : ℕ → A)
    (old_page : A) (out : Buddy × (ℕ → A) × Option ℕ) : Type ℓ where
  stored :
      (p : ℕ)
      → out.2 ≡ some p
      → cover ls p ≡ 1
      → Taken (z.total_pages) ls 0 p out.0
      → read_from_local z out.1 (pos p) ≡ some old_page
      → ((q : ℕ) → q ≢ p → read_from_local z out.1 (pos q) ≡ read_from_local z memory (pos q))
      → Stored z b ls memory old_page out
  full :
      out.2 ≡ none
      → out.0 ≡ b
      → out.1 ≡ memory
      → ((o : ℕ) → o < max_order → ls o ≡ [])
      → Stored z b ls memory old_page out

module _ {ℓ} {A : Type ℓ} (z : Sizes) {b : Buddy} {ls : Lists} (v : IsValid (z.total_pages) b ls)
    (memory : ℕ → A) (old_page : A) where
  -- From a valid state COMEX_move_to_COMEX takes a free page, and COMEX_read_from_local of its number
  -- gives the contents back while the other pages keep theirs; if no page is free it changes nothing.
  pub move_to_comex-Stored : Stored z b ls memory old_page (move_to_comex z b memory old_page)
  unfolding move_to_comex read_from_local
  move_to_comex-Stored = elim (rmqueue_smallest-Outcome v 0 (omega arith)) [
    | nothing r s f ↦ rw (r, move_to_comex) (full refl s refl (λ o h. f o (omega arith) h))
    | block p o l h ne r t ↦
        let inside : leb (z.total_pages) p ≡ false = ground (arith, t.within) in
        rw (r, inside, move_to_comex)
          (stored p refl
            (omega (
              arith,
              t.covers p,
              t.valid.tiling.once p,
              v.tiling.once p,
              in_block-in p 0 p (omega arith) (omega arith),
            ))
            t (rw (inside, update_self memory (local_page_offset z p) old_page) refl)
            (λ q n.
              ap (λ x. if leb (z.total_pages) q then none else some x)
                (update_ne memory (local_page_offset z p) old_page (local_page_offset z q)
                  (λ e. n (local_page_offset-inj z q p e)))))
  ]
