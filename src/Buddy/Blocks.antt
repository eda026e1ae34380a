-- ===== src/Buddy/Blocks.antt =====
-- What a family of free lists covers: how often each page lies in a block of it.
pub mod Tiling
use native.Mathlib.Nat.{two-pow-succ}
use comex.Base.{
  ℕ, zero, suc, ◌+◌, ◌-◌, ◌*◌, ◌/◌, ◌%◌, ◌^◌, ◌≤◌, ◌<◌, ◌≡◌, refl, ◌≢◌, ◌⊎◌, inl, inr, Bool, true,
  false, ◌&&◌, ◌||◌, List, [], ◌∷◌, ◌++◌, arith, ◌==◌, ltb, leb, if◌then◌else◌, update,
}
use comex.Base.Bits.{pow_pos}
use comex.Buddy.Links.{max_order}
use comex.Buddy.Links.Ring.{has, ◌∉◌}

-- The pages of each order's list.
abbrev pub Lists : Type 0
Lists = ℕ → List ℕ

-- 1 if page `j` lies in the block of order `o` at `p`, else 0
unfoldable pub in_block : (p o j : ℕ) → ℕ
in_block p o j = if leb p j && ltb j (p + 2 ^ o) then 1 else 0

unfoldable pub cover_list : (o : ℕ) → List ℕ → (j : ℕ) → ℕ
cover_list o [] j = 0
cover_list o (p ∷ ps) j = in_block p o j + cover_list o ps j

pub cover_upto : (n : ℕ) → Lists → (j : ℕ) → ℕ
cover_upto zero ls j = 0
cover_upto (suc n) ls j = cover_upto n ls j + cover_list n (ls n) j

-- How many free blocks page `j` lies in.
pub cover : Lists → ℕ → ℕ
unfolding cover_upto
cover ls j = cover_upto max_order ls j

pub in_block_self : (p o : ℕ) → in_block p o p ≡ 1
unfolding in_block
in_block_self p o = ground (arith, pow_pos o)

pub in_block-le : (p o j : ℕ) → in_block p o j ≤ 1
unfolding in_block
in_block-le p o j = ground arith

-- A block is its two halves.
pub in_block-halves : (p o j : ℕ) → in_block p (suc o) j ≡ in_block p o j + in_block (p + 2 ^ o) o j
unfolding in_block
in_block-halves p o j = ground (arith, two-pow-succ o)

pub cover_list-append :
    (o : ℕ) (ps qs : List ℕ) (j : ℕ)
    → cover_list o (ps ++ qs) j ≡ cover_list o ps j + cover_list o qs j
unfolding cover_list
cover_list-append o [] qs j = omega arith
cover_list-append o (p ∷ ps) qs j = omega (arith, cover_list-append o ps qs j)

pub cover_list-mem : (o : ℕ) (ps : List ℕ) (p : ℕ) → has p ps ≡ true → 1 ≤ cover_list o ps p
unfolding cover_list
cover_list-mem o [] p i = absurd (cc)
cover_list-mem o (q ∷ ps) p i = ground (arith, cover_list-mem o ps p, in_block_self p o)

cover_upto-update_above :
    (n : ℕ) (ls : Lists) (o : ℕ) (ps : List ℕ) (j : ℕ)
    → n ≤ o
    → cover_upto n (update ls o ps) j ≡ cover_upto n ls j
unfolding cover_upto update
cover_upto-update_above zero ls o ps j h = refl
cover_upto-update_above (suc n) ls o ps j h = ground (arith, cover_upto-update_above n ls o ps j)

cover_upto-update :
    (n : ℕ) (ls : Lists) (o : ℕ) (ps : List ℕ) (j : ℕ)
    → o < n
    → cover_upto n (update ls o ps) j + cover_list o (ls o) j
      ≡ cover_upto n ls j + cover_list o ps j
unfolding cover_upto update
cover_upto-update zero ls o ps j h = absurd (omega arith)
cover_upto-update (suc n) ls o ps j h =
    ground (arith, cover_upto-update n ls o ps j, cover_upto-update_above n ls o ps j)

-- A change of one list changes the cover by that list's.
pub cover-update :
    (ls : Lists) (o : ℕ) (ps : List ℕ) (j : ℕ)
    → o < max_order
    → cover (update ls o ps) j + cover_list o (ls o) j ≡ cover ls j + cover_list o ps j
unfolding cover
cover-update ls o ps j h = cover_upto-update max_order ls o ps j h

cover_list-le-upto :
    (n : ℕ) (ls : Lists) (o j : ℕ) → o < n → cover_list o (ls o) j ≤ cover_upto n ls j
unfolding cover_upto
cover_list-le-upto zero ls o j h = absurd (omega arith)
cover_list-le-upto (suc n) ls o j h = ground (arith, cover_list-le-upto n ls o j)

-- A page that a list holds is covered.
pub cover-mem : (ls : Lists) (o p : ℕ) → o < max_order → has p (ls o) ≡ true → 1 ≤ cover ls p
unfolding cover
cover-mem ls o p h i =
    omega (arith, cover_list-le-upto max_order ls o p h, cover_list-mem o (ls o) p i)

-- The free blocks are aligned, lie among the pages, and no page is in two of them.
pub record IsTiling (total : ℕ) (ls : Lists) : Type 0 where
  pub aligned : (o p : ℕ) → o < max_order → has p (ls o) ≡ true → p % 2 ^ o ≡ 0
  pub within : (o p : ℕ) → o < max_order → has p (ls o) ≡ true → p + 2 ^ o ≤ total
  pub once : (j : ℕ) → cover ls j ≤ 1

pub in_block-in : (p o j : ℕ) → p ≤ j → j < p + 2 ^ o → in_block p o j ≡ 1
unfolding in_block
in_block-in p o j x y = ground arith

pub in_block-out : (p o j : ℕ) → (leb p j && ltb j (p + 2 ^ o)) ≡ false → in_block p o j ≡ 0
unfolding in_block
in_block-out p o j n = rw n

cover_upto-none : (n j : ℕ) → cover_upto n (λ o. []) j ≡ 0
unfolding cover_upto cover_list
cover_upto-none zero j = refl
cover_upto-none (suc n) j = omega (arith, cover_upto-none n j)

-- Without blocks nothing is covered.
pub cover_none : (j : ℕ) → cover (λ o. []) j ≡ 0
unfolding cover
cover_none j = cover_upto-none max_order j

cover_upto-empty :
    (n : ℕ) (ls : Lists) (j : ℕ) → ((o : ℕ) → o < n → ls o ≡ []) → cover_upto n ls j ≡ 0
unfolding cover_upto cover_list
cover_upto-empty zero ls j h = refl
cover_upto-empty (suc n) ls j h =
    rw (h n (omega arith)) (omega (arith, cover_upto-empty n ls j (λ o k. h o (omega arith))))

-- Without blocks in the lists nothing is covered.
pub cover-empty : (ls : Lists) (j : ℕ) → ((o : ℕ) → o < max_order → ls o ≡ []) → cover ls j ≡ 0
unfolding cover
cover-empty ls j h = cover_upto-empty max_order ls j h
