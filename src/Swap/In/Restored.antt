-- ===== src/Swap/In/Restored.antt =====
-- A page that is swapped out to the pool and in again.
use comex.Base.{ℕ, ◌≡◌, refl, ap, ◌∙◌, true, ◌&&◌, ◌==◌, some, arith}
use comex.Base.Int.{pos}
use comex.Buddy.{Buddy, free_page}
use comex.Buddy.Blocks.{Lists, cover, in_block-in}
use comex.Buddy.Valid.{IsValid}
use comex.Buddy.Alloc.{Taken}
use comex.Buddy.Release.{free_page-Released}
use comex.Local.{read_from_local}
use comex.ReadIn.{Reads}
use comex.Swap.{local, place_of}
use comex.Swap.In.{Guest, copied, fetched, free_local, fetch}
use comex.Rmap.{AnonVma, rmap_counter}
use comex.Swap.Out.{Candidate, Host, Kernel, Settings, chosen, is_eligible, choose}
use comex.Swap.Out.Chosen.{Fits, choose-PoolChoice}
use comex.WriteOut.{Verbs}

-- The allocator is valid, and as many pages are free as `ls` covers, each page by page.
pub record Restored (total : ℕ) (ls : Lists) (b : Buddy) : Type 0 where
  pub lists : Lists
  pub valid : IsValid total b lists
  pub covers : (j : ℕ) → cover lists j ≡ cover ls j

-- A page that was free is taken and freed again.
taken-Restored :
    (total : ℕ) (ls : Lists) (p : ℕ) (b : Buddy)
    → cover ls p ≡ 1
    → Taken total ls 0 p b
    → Restored total ls (free_page b p 0)
taken-Restored total ls p b c t =
    let freed = free_page-Released t.valid 0 p (omega arith) (omega arith) t.within (λ j x y.
      let same : j ≡ p = omega arith in
      rw same (omega (arith, t.covers p, c, in_block-in p 0 p (omega arith) (omega arith)))) in
    record {
      lists = freed.lists;
      valid = freed.valid;
      covers = λ j. omega (arith, freed.covers j, t.covers j);
    }

module _ {ℓ κ μ ν} {A : Type ℓ} {M : Type κ} {T : Type μ} {K : Type ν} (verbs : Verbs A M)
    (reads : Reads A) (kernel : Kernel T K) (settings : Settings) where
  open settings use {sizes, config}
  open kernel use {swapops}

  fetch-local :
      (g : Guest A M T K) (entry p : ℕ) (a : A)
      → place_of swapops entry ≡ local p
      → read_from_local sizes g.host.memory (pos p) ≡ some a
      → ((fetch reads kernel settings g entry).1 ≡ copied a)
        × ((fetch reads kernel settings g entry).0.host.buddy ≡ free_page g.host.buddy p 0)
  unfolding fetch free_local fetched
  fetch-local g entry p a e r = rw (e, fetch) (rw (r, fetched) (refl, refl))

  -- If the allocator is valid with a free page and all numbers fit into entries, add_to_swap chooses
  -- for an eligible page an entry of the pool. On the state that the choice leaves, the branch of
  -- read_swap_cache_async for the entry copies the contents that were swapped out, and afterwards the
  -- allocator is valid with the same pages free as before.
  pub swap_out-in :
      (h : Host A M T K) (ls : Lists) (page : Candidate) (avcs : AnonVma) (a : A) (j : ℕ)
      (g : Guest A M T K)
      → Fits verbs kernel settings h
      → IsValid (sizes.total_pages) h.buddy ls
      → page.anon_vma ≡ some avcs
      → (is_eligible verbs kernel settings page && rmap_counter avcs == 1) ≡ true
      → cover ls j ≡ 1
      → g.host ≡ (choose verbs kernel settings h page a).0
      → (entry : ℕ) × ((choose verbs kernel settings h page a).1 ≡ chosen entry)
        × ((fetch reads kernel settings g entry).1 ≡ copied a)
        × Restored (sizes.total_pages) ls (fetch reads kernel settings g entry).0.host.buddy
  swap_out-in h ls page avcs a j g fit v e t free same =
      let c = choose-PoolChoice verbs kernel settings h ls page avcs a j fit v e t free in
      let back =
        fetch-local g c.entry c.page_no a c.place
          (ap (λ x. read_from_local sizes x.memory (pos c.page_no)) same ∙ c.back) in
      let taken = taken-Restored (sizes.total_pages) ls c.page_no _ c.was_free c.taken in
      (c.entry, c.chose, back.0, rw (back.1 ∙ ap (λ x. free_page x.buddy c.page_no 0) same) taken)
