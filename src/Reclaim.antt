-- ===== src/Reclaim.antt =====
-- Pages that come back from another node: the PAGE_FREE branch of COMEX_do_work in
-- `krpingTrimmed/COMEX_module_lib.h`, which hands each run of pages to COMEX_free_page in aligned
-- blocks.
pub mod Runs
mod Tests
use Prim.Native.Nat.{bit_and}
use comex.Base.{
  ℕ, zero, suc, ◌+◌, ◌-◌, ◌%◌, ◌^◌, Bool, true, false, not, ◌||◌, List, [], ◌∷◌, ltb, ◌==◌,
  if◌then◌else◌,
}
use comex.Buddy.{Buddy, free_page}
use comex.Buddy.Links.{max_order}

-- The inner loop, from `pow` down. At 0 its test fails for every count that is not 0.
pub pick_pow : (pow count page_idx : ℕ) → ℕ
pick_pow zero count page_idx = zero
pick_pow (suc pow) count page_idx =
    if ltb count (2 ^ suc pow) || not (page_idx % 2 ^ suc pow == 0)
    then pick_pow pow count page_idx
    else suc pow

-- The loop over one run, with fuel. The result has the count that is left when the loop ends or the
-- fuel does.
pub free_run : (fuel : ℕ) → Buddy → (page_no count : ℕ) → Buddy × ℕ
free_run zero b page_no count = (b, count)
free_run (suc fuel) b page_no zero = (b, zero)
free_run (suc fuel) b page_no (suc c) =
    let page_idx = bit_and page_no (2 ^ (max_order - 1) - 1) in
    let pow = pick_pow (max_order - 1) (suc c) page_idx in
    free_run fuel (free_page b page_no pow) (page_no + 2 ^ pow) (suc c - 2 ^ pow)

-- A run of pages: an entry of free_struct_t that is in use.
pub record PageRun : Type 0 where
  pub page_no : ℕ
  pub count : ℕ

-- The loop over the entries of a free_struct_t. Entries with count 0 are passed over. A round takes
-- at least one page, so `count` rounds are enough for each.
pub free_runs : Buddy → List PageRun → Buddy
free_runs b [] = b
free_runs b (r ∷ rs) = free_runs (free_run r.count b r.page_no r.count).0 rs
