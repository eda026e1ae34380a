-- ===== src/Buddy/Valid.antt =====
-- The invariant of the allocator between two calls.
use comex.Base.{ℕ, ◌-◌, ◌%◌, ◌<◌, ◌≡◌}
use comex.Base.Int.{pos}
use comex.Buddy.{Buddy}
use comex.Buddy.Blocks.{Lists, IsTiling, cover}
use comex.Buddy.Shape.{IsShaped}

-- There is a whole number of 1024-page groups, the lists tile free pages, and the counter of a page
-- is 0 exactly if a free block covers it.
pub record IsValid (total : ℕ) (b : Buddy) (ls : Lists) : Type 0 where
  pub groups : total % 1024 ≡ 0
  pub shape : IsShaped total b ls
  pub tiling : IsTiling total ls
  pub numbered : (j : ℕ) → j < total → (b.page j).page_no ≡ j
  pub counted : (j : ℕ) → j < total → (b.page j).cntr ≡ pos (1 - cover ls j)
