-- ===== src/Init/Filled.antt =====
-- After COMEX_init_ENV exactly the pages with memory behind them are free.
use comex.Base.{
  ℕ, zero, suc, ◌+◌, ◌%◌, ◌≤◌, ◌<◌, ◌≡◌, refl, ◌∙◌, inl, inr, Bool, true, false, not, ◌&&◌,
  Bool-cases, leb, ltb, ◌==◌, if◌then◌else◌, arith,
}
use comex.Buddy.{Buddy, free_page}
use comex.Buddy.Links.{max_order}
use comex.Buddy.Blocks.{Lists, cover, cover_none, cover-empty, in_block, in_block-out}
use comex.Buddy.Valid.{IsValid}
use comex.Buddy.Alloc.Search.{nothing, block, rmqueue_smallest-Outcome}
use comex.Buddy.Release.{free_page-Released}
use comex.Layout.{Sizes, local_page_offset}
use comex.Init.{init_areas, init_pages, free_each, drain, free_mapped, init_env}
use comex.Init.Fresh.{no_blocks, fresh-IsValid}

-- A valid state in which page `j` is free as `free j` says.
pub record Pool (total : ℕ) (b : Buddy) (free : ℕ → ℕ) : Type 0 where
  pub lists : Lists
  pub valid : IsValid total b lists
  pub covers : (j : ℕ) → j < total → cover lists j ≡ free j

-- One more page is free after its release.
free_one :
    {total : ℕ} {b : Buddy} {free : ℕ → ℕ} (i : ℕ)
    → i < total
    → free i ≡ 0
    → Pool total b free
    → Pool total (free_page b i 0) (λ j. free j + in_block i 0 j)
free_one {total} {b} i h e q =
    let r =
      free_page-Released q.valid 0 i (omega arith) (omega arith) (omega arith)
        (λ j x y. let same : j ≡ i = omega arith in rw same (q.covers i h ∙ e)) in
    record {
      lists = r.lists;
      valid = r.valid;
      covers = λ j k. omega (arith, r.covers j, q.covers j k);
    }

-- 1 for the pages from `i` on, below `k`, that `mapped` names
pub chosen : (mapped : ℕ → Bool) (i k j : ℕ) → ℕ
chosen mapped i k j = if leb i j && ltb j k && mapped j then 1 else 0

Pool-same :
    {total : ℕ} {b : Buddy} {free free' : ℕ → ℕ}
    → ((j : ℕ) → j < total → free j ≡ free' j)
    → Pool total b free
    → Pool total b free'
Pool-same e q = record { lists = q.lists; valid = q.valid; covers = λ j k. q.covers j k ∙ e j k }

chosen_taken :
    (mapped : ℕ → Bool) (i k j : ℕ)
    → i < k
    → mapped i ≡ true
    → in_block i 0 j + chosen mapped (i + 1) k j ≡ chosen mapped i k j
unfolding chosen in_block
chosen_taken mapped i k j h e = elim (Bool-cases (j == i)) [
  | inl t ↦ let same : j ≡ i = ground arith in rw (same, e) (ground arith)
  | inr f ↦ ground arith
]

chosen_left :
    (mapped : ℕ → Bool) (i k j : ℕ)
    → mapped i ≡ false
    → chosen mapped (i + 1) k j ≡ chosen mapped i k j
unfolding chosen
chosen_left mapped i k j e = elim (Bool-cases (j == i)) [
  | inl t ↦ let same : j ≡ i = ground arith in rw (same, e) (ground arith)
  | inr f ↦ ground arith
]

chosen_none : (mapped : ℕ → Bool) (i j : ℕ) → chosen mapped i i j ≡ 0
unfolding chosen
chosen_none mapped i j = ground arith

free_each-Pool :
    (n i k : ℕ) {total : ℕ} {b : Buddy} {free : ℕ → ℕ}
    → n + i ≡ k
    → k ≤ total
    → ((j : ℕ) → i ≤ j → free j ≡ 0)
    → Pool total b free
    → Pool total (free_each b n i) (λ j. free j + chosen (λ p. true) i k j)
unfolding free_each
free_each-Pool zero i k x h e q =
    let same : i ≡ k = omega arith in
    Pool-same (λ j l. rw same (omega (arith, chosen_none (λ p. true) k j))) q
free_each-Pool (suc n) i k x h e q =
    Pool-same (λ j l. omega (arith, chosen_taken (λ p. true) i k j (omega arith) refl))
      (free_each-Pool n (i + 1) k (omega arith) h
        (λ j y. omega (arith, e j, in_block-out i 0 j (ground arith)))
        (free_one i (omega arith) (e i (omega arith)) q))

-- The test of the last loop: the page has memory behind it.
abbrev pub is_mapped : Sizes → (ℕ → ℕ) → ℕ → Bool
is_mapped z offset_to_addr i = not (offset_to_addr (local_page_offset z i) == 0)

free_mapped-Pool :
    (z : Sizes) (offset_to_addr : ℕ → ℕ) (n i k : ℕ) {total : ℕ} {b : Buddy} {free : ℕ → ℕ}
    → n + i ≡ k
    → k ≤ total
    → ((j : ℕ) → i ≤ j → free j ≡ 0)
    → Pool total b free
    → Pool total
        (free_mapped z offset_to_addr b n i)
        (λ j. free j + chosen (is_mapped z offset_to_addr) i k j)
unfolding free_mapped
free_mapped-Pool z offset_to_addr zero i k x h e q =
    Pool-same
      (λ j l.
        let same : i ≡ k = omega arith in
        rw same (omega (arith, chosen_none (is_mapped z offset_to_addr) k j)))
      q
free_mapped-Pool z offset_to_addr (suc n) i k x h e q =
    elim (Bool-cases (offset_to_addr (local_page_offset z i) == 0)) [
      | inl t ↦ rw t (
          Pool-same
            (λ j l. omega (arith, chosen_left (is_mapped z offset_to_addr) i k j (rw t refl)))
            (free_mapped-Pool z offset_to_addr n (i + 1) k (omega arith) h
              (λ j y. e j (omega arith)) q))
      | inr f ↦ rw f (
          Pool-same
            (λ j l.
              omega
                (arith, chosen_taken (is_mapped z offset_to_addr) i k j (omega arith) (rw f refl)))
            (free_mapped-Pool z offset_to_addr n (i + 1) k (omega arith) h
              (λ j y. omega (arith, e j, in_block-out i 0 j (ground arith)))
              (free_one i (omega arith) (e i (omega arith)) q)))
    ]

-- How many pages below `n` are free.
free_count : (ℕ → ℕ) → ℕ → ℕ
free_count free zero = 0
free_count free (suc n) = free_count free n + free n

free_count-le : (free : ℕ → ℕ) (n : ℕ) → ((j : ℕ) → free j ≤ 1) → free_count free n ≤ n
unfolding free_count
free_count-le free zero h = omega arith
free_count-le free (suc n) h = omega (arith, free_count-le free n h, h n)

free_count-less :
    (free free' : ℕ → ℕ) (p n : ℕ)
    → ((j : ℕ) → free' j + in_block p 0 j ≡ free j)
    → free_count free' n + (if ltb p n then 1 else 0) ≡ free_count free n
unfolding free_count in_block
free_count-less free free' p zero h = ground arith
free_count-less free free' p (suc n) h = ground (arith, h n, free_count-less free free' p n h)

-- The drain ends, and then no page is free.
drain-Drained :
    (fuel : ℕ) {total : ℕ} {b : Buddy} {ls : Lists}
    → IsValid total b ls
    → free_count (cover ls) total < fuel
    → ((drain fuel b).0 ≡ true) × Pool total (drain fuel b).1 (λ j. 0)
unfolding drain
drain-Drained zero v h = absurd (omega arith)
drain-Drained (suc fuel) {total} {b} {ls} v h = elim (rmqueue_smallest-Outcome v 0 (omega arith)) [
  | nothing r s f ↦
      rw (r, s, drain)
        (
          refl,
          record {
            lists = ls;
            valid = v;
            covers = λ j k. cover-empty ls j (λ o l. f o (omega arith) l);
          },
        )
  | block p o l k ne r t ↦
      let less = free_count-less (cover ls) (cover t.lists) p total t.covers in
      rw (r, drain) (drain-Drained fuel t.valid (ground (arith, less, t.within)))
]

all_free : (k j : ℕ) → j < k → 0 + chosen (λ p. true) 0 k j ≡ 1
unfolding chosen
all_free k j h = ground arith

chosen_below :
    (mapped : ℕ → Bool) (k j : ℕ) → j < k → 0 + chosen mapped 0 k j ≡ (if mapped j then 1 else 0)
unfolding chosen
chosen_below mapped k j h = ground arith

module _ (z : Sizes) (offset_to_addr : ℕ → ℕ) (memory : Buddy) (g : z.total_pages % 1024 ≡ 0) where
  abbrev all_freed : Buddy
  all_freed =
      free_each (init_pages (init_areas memory max_order 0) (z.total_pages) 0) (z.total_pages) 0

  all_freed-Pool : Pool (z.total_pages) all_freed (λ j. 0 + chosen (λ p. true) 0 (z.total_pages) j)
  all_freed-Pool =
      free_each-Pool (z.total_pages) 0 (z.total_pages) (omega arith) (omega arith) (λ j x. refl)
        (record {
          lists = no_blocks;
          valid = fresh-IsValid memory (z.total_pages) g;
          covers = λ j k. cover_none j;
        })

  all_drained :
      ((drain (z.total_pages + 1) all_freed).0 ≡ true)
      × Pool (z.total_pages) (drain (z.total_pages + 1) all_freed).1 (λ j. 0)
  all_drained = drain-Drained (z.total_pages + 1) all_freed-Pool.valid (
      omega (
        arith,
        free_count-le (cover all_freed-Pool.lists) (z.total_pages) all_freed-Pool.valid.tiling.once,
      ))

  -- With a whole number of 1024-page groups, whatever the memory held: the drain of COMEX_init_ENV
  -- ends, and at the end the allocator is valid and a page is free exactly if it has memory behind it.
  pub init_env-Pool :
      ((drain (z.total_pages + 1) all_freed).0 ≡ true)
      × Pool
          (z.total_pages)
          (init_env z offset_to_addr memory)
          (λ j. if is_mapped z offset_to_addr j then 1 else 0)
  unfolding init_env
  init_env-Pool = (
    all_drained.0,
    Pool-same (λ j k. chosen_below (is_mapped z offset_to_addr) (z.total_pages) j k)
        (free_mapped-Pool z offset_to_addr (z.total_pages) 0 (z.total_pages) (omega arith)
          (omega arith) (λ j x. refl) all_drained.1),
  )
