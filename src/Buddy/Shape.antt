-- ===== src/Buddy/Shape.antt =====
-- What the allocator's data structure stands for: a list of pages for each order.
pub mod Unlink
pub mod Insert
use mathlib.Core.List.{map-append}
use comex.Base.{
  ℕ, zero, suc, ◌+◌, ◌-◌, ◌%◌, ◌^◌, ◌≤◌, ◌<◌, ◌≡◌, refl, ◌≢◌, ◌⊎◌, inl, inr, Bool, true, false,
  ◌&&◌, ◌||◌, List, [], ◌∷◌, ◌++◌, map, arith, ◌==◌, leb, length, update,
}
use comex.Base.Int.{ℤ, pos}
use comex.Buddy.{Buddy, page_is_buddy}
use comex.Buddy.Links.{max_order, Ptr, lru}
use comex.Buddy.Links.Ring.{has, ◌∉◌, IsRing}
use comex.Buddy.Blocks.{Lists, cover, cover-mem}

-- The lists `ls` are those of `b`, whose pages are those below `total`.
pub record IsShaped (total : ℕ) (b : Buddy) (ls : Lists) : Type 0 where
  pub ring : (o : ℕ) → o < max_order → IsRing b.heads o (map lru (ls o))
  pub count : (o : ℕ) → o < max_order → b.nr_free o ≡ pos (length (ls o))
  pub marked : (o p : ℕ) → o < max_order → has p (ls o) ≡ true → page_is_buddy b p o ≡ true
  pub listed :
      (o p : ℕ) → o < max_order → p < total → page_is_buddy b p o ≡ true → has p (ls o) ≡ true

pub has-lru : (q : Ptr) (ps : List ℕ) → has q (map lru ps) ≡ (leb max_order q && has (q - 11) ps)
has-lru q [] = ground arith
has-lru q (p ∷ ps) = ground (arith, has-lru q ps)

pub length-lru : (ps : List ℕ) → length (map lru ps) ≡ length ps
length-lru [] = refl
length-lru (p ∷ ps) = omega (arith, length-lru ps)

-- A page that no free block covers is in no list.
pub not_listed : (ls : Lists) (p : ℕ) → cover ls p ≡ 0 → (o : ℕ) → o < max_order → p ∉ ls o
not_listed ls p c o h = ground (arith, cover-mem ls o p)

module _ {total : ℕ} {b : Buddy} {ls : Lists} (s : IsShaped total b ls) where
  -- A page is in the list of one order only.
  pub one_order :
      (o o' p : ℕ)
      → o < max_order
      → o' < max_order
      → has p (ls o) ≡ true
      → has p (ls o') ≡ true
      → o ≡ o'
  one_order o o' p h h' i i' = ground (arith, s.marked o p h i, s.marked o' p h' i')

  -- The lists of two orders share no address.
  pub rings_apart :
      (o o' : ℕ)
      → o < max_order
      → o' < max_order
      → o ≢ o'
      → (q : Ptr) → has q (o' ∷ map lru (ls o')) ≡ true
      → q ∉ (o ∷ map lru (ls o))
  rings_apart o o' h h' n q i =
      ground (arith, has-lru q (ls o), has-lru q (ls o'), one_order o o' (q - 11) h h')
