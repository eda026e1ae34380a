-- ===== src/Init.antt =====
-- COMEX_init_ENV of `Kernel Modification/comex_lib.h`: how the pool of local pages comes to be.
-- The memory that vmalloc returns is any state, and `offset_to_addr` is the module's translation of
-- an offset, with 0 for NULL.
pub mod Fresh
pub mod Filled
mod Tests
use comex.Base.{ℕ, zero, suc, ◌+◌, ◌*◌, Bool, true, false, ◌==◌, if◌then◌else◌, update, ltb}
use comex.Base.Int.{ℤ, pos, negsuc, minus_one}
use comex.Buddy.{Buddy, Page, set_page, set_heads, free_page, rmqueue_smallest}
use comex.Buddy.Links.{max_order, free_list, lru, init_list}
use comex.Layout.{Sizes, local_page_offset}

-- The loop over COMEX_free_area, with `n` entries left from `i` on.
pub init_areas : Buddy → (n i : ℕ) → Buddy
init_areas b zero i = b
init_areas b (suc n) i =
    let b' = record b { nr_free = update b.nr_free i (pos 0) } in
    init_areas (set_heads b' (init_list b'.heads (free_list i))) n (i + 1)

-- The loop over COMEX_Buddy_page.
pub init_pages : Buddy → (n i : ℕ) → Buddy
init_pages b zero i = b
init_pages b (suc n) i =
    let p : Page = record { page_no = i; private = 0; mapcount = minus_one; cntr = pos 1 } in
    let b' = set_page b i p in init_pages (set_heads b' (init_list b'.heads (lru i))) n (i + 1)

-- for(i = …) COMEX_free_page(i, 0)
pub free_each : Buddy → (n i : ℕ) → Buddy
free_each b zero i = b
free_each b (suc n) i = free_each (free_page b i 0) n (i + 1)

-- while(ret >= 0) ret = COMEX_rmqueue_smallest(0), with fuel. `none`: the fuel ran out.
pub drain : ℕ → Buddy → Bool × Buddy
drain zero b = (false, b)
drain (suc fuel) b =
    let (b', ret) = rmqueue_smallest b 0 in
    elim ret [ pos p ↦ drain fuel b' | negsuc k ↦ (true, b') ]

-- The last loop: only pages that have memory behind them are given out.
pub free_mapped : Sizes → (ℕ → ℕ) → Buddy → (n i : ℕ) → Buddy
free_mapped z offset_to_addr b zero i = b
free_mapped z offset_to_addr b (suc n) i =
    let new_vaddr = offset_to_addr (local_page_offset z i) in
    free_mapped z offset_to_addr (if new_vaddr == 0 then b else free_page b i 0) n (i + 1)

-- The buddy system's part of COMEX_init_ENV. The drain has one round more than there are pages.
pub init_env : Sizes → (ℕ → ℕ) → Buddy → Buddy
init_env z offset_to_addr memory =
    let n = z.total_pages in
    let b₁ = init_pages (init_areas memory max_order 0) n 0 in
    let b₂ = free_each b₁ n 0 in
    let b₃ = (drain (n + 1) b₂).1 in free_mapped z offset_to_addr b₃ n 0
