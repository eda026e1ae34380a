-- ===== src/Swap/Tests.antt =====
-- Runs of swapping out and in.
mod Faults
mod Pages
use comex.Base.Errno.{eexist}
use comex.Base.{
  ℕ, suc, ◌+◌, ◌*◌, ◌/◌, ◌%◌, ◌≡◌, ◌≢◌, refl, true, false, List, [], ◌∷◌, Option, none, some, ◌==◌,
  if◌then◌else◌, update, update_self, update_ne, arith,
}
use comex.Base.Int.{ℤ, pos, negsuc}
use comex.Buddy.{Buddy, free_page}
use comex.Buddy.Links.{max_order}
use comex.Buddy.Blocks.{cover, cover_none, in_block-in}
use comex.Buddy.Release.{Released, free_page-Released}
use comex.Init.{init_areas, init_pages}
use comex.Init.Fresh.{no_blocks, fresh-IsValid}
use comex.Outgoing.Queue.{AreValid}
use comex.ReadIn.{Reads}
use comex.ReadIn.Coherent.{IsCoherent, no_page-not_holding}
use comex.Swap.{Swapops, RadixTree, SwapCache, delete_from_cache}
use comex.Swap.Consistent.{find, IsConsistent, delete_from_cache-IsConsistent}
use comex.Swap.In.{Guest, Round, copied, fetch, read_remote}
use comex.Rmap.{AnonVma, get_task_struct, first_owner, rmap_counter}
use comex.Swap.In.Restored.{Restored, swap_out-in}
use comex.Swap.Out.{Candidate, Host, Kernel, Settings, is_ours, is_eligible, chosen, choose}
use comex.Swap.Out.Chosen.{Fits}
use comex.WriteOut.{no_page}
use comex.WriteOut.Plain.{plain}
use comex.WriteOut.View.{view}

-- A tree is a function.
abbrev insert : (ℕ → Option ℕ) → (key page : ℕ) → (ℕ → Option ℕ) × ℤ
insert t k p = elim (t k) [ some q ↦ (t, negsuc 16) | none ↦ (update t k (some p), pos 0) ]

abbrev delete : (ℕ → Option ℕ) → ℕ → ℕ → Option ℕ
delete t k = update t k none

inserted :
    (t : ℕ → Option ℕ) (k p : ℕ) (o : Option ℕ)
    → t k ≡ o
    → let out : (ℕ → Option ℕ) × ℤ = elim o [
      | some q ↦ (t, negsuc 16)
      | none ↦ (update t k (some p), pos 0)
    ] in
      (out.1 ≡ pos 0 → (out.0 k ≡ some p) × (t k ≡ none))
      × ((j : ℕ) → j ≢ k → out.0 j ≡ t j)
      × (out.1 ≢ pos 0 → out.0 ≡ t)
inserted t k p none e =
    (λ z. (update_self t k (some p), e), λ j n. update_ne t k (some p) j n, λ n. absurd (n refl))
inserted t k p (some q) e = (λ z. absurd (ground arith), λ j n. refl, λ n. refl)

abbrev tree : RadixTree (ℕ → Option ℕ)
tree = record {
  lookup = λ t k. t k;
  insert = insert;
  delete = delete;
  insert_here = λ t k p z. ((inserted t k p (t k) refl).0 z).0;
  insert_new = λ t k p z. ((inserted t k p (t k) refl).0 z).1;
  insert_elsewhere = λ t k p j n. (inserted t k p (t k) refl).1 j n;
  insert_fails = λ t k p n. (inserted t k p (t k) refl).2 n;
  delete_here = λ t k. update_self t k none;
  delete_elsewhere = λ t k j n. update_ne t k none j n;
}

abbrev entries : Swapops
entries = record {
  swp_entry = λ t o. t * 1099511627776 + o;
  swp_type = λ e. e / 1099511627776;
  swp_offset = λ e. e % 1099511627776;
  offset_bound = 1099511627776;
  swp_type_lem = λ t o h l. omega arith;
  swp_offset_lem = λ t o h l. omega arith;
}

abbrev empty_cache : SwapCache (ℕ → Option ℕ)
empty_cache = record {
  page = λ p. record { count = pos 2; swap_cache = false; private = 0; dirty = false };
  tree = λ s k. none;
  nrpages = λ s. pos 0;
  add_total = 0;
  del_total = 0;
  find_success = 0;
  find_total = 0;
}

-- Page 5 is cached under entry 77.
abbrev one_cached : SwapCache (ℕ → Option ℕ)
one_cached = record empty_cache {
  page = λ p. record {
    count = pos 3;
    swap_cache = p == 5;
    private = if p == 5 then 77 else 0;
    dirty = false;
  };
  tree = λ s k. if k == 77 then some 5 else none;
}

abbrev memory : Buddy
memory = record {
  heads = record { next = λ p. 0; prev = λ p. 0 };
  nr_free = λ o. pos 0;
  page = λ j. record { page_no = 0; private = 0; mapcount = pos 0; cntr = pos 0 };
}

-- 64 pages from page 128 on are free.
abbrev some_free : Buddy
some_free = free_page (init_pages (init_areas memory max_order 0) 1024 0) 128 6

some_freed : Released 1024 no_blocks 6 128 some_free
some_freed =
    free_page-Released (fresh-IsValid memory 1024 refl) 6 128 (omega arith) refl (omega arith)
      (λ j x y. cover_none j)

page_130-free : cover some_freed.lists 130 ≡ 1
page_130-free = omega (
  arith,
  some_freed.covers 130,
  cover_none 130,
  in_block-in 128 6 130 (omega arith) (omega arith),
)

-- No other node has lent pages, and no page is cached.
abbrev host : Host ℕ (ℕ → ℕ) (ℕ → Option ℕ) ℕ
host = record {
  buddy = some_free;
  memory = λ o. 0;
  out = record {
    free_group = λ n. record { total_page = pos 0; back_off = 0; locked = false; free_group = [] };
    ring =
        λ n. (λ j. 700 + j, record { buff = λ j. no_page; contents = λ j. 0; head = 0; tail = 0 });
    cache = record { buff = λ j. no_page; contents = λ j. 0 };
    requests = [];
  };
  cache = empty_cache;
  devices = 0;
  swap_to_comex = 0;
  swap_to_disk = 0;
  swap_total = 0;
}

abbrev kernel : Kernel (ℕ → Option ℕ) ℕ
kernel = record {
  radix = tree;
  space = λ e. 0;
  swapops = entries;
  get_swap_page = λ k. (suc k, suc k);
  swapcache_free = λ k e. k;
  strcmp = λ x y. pos 0;
}

abbrev settings : Settings
settings = record {
  comex_ready = true;
  proc_name = 114 ∷ 101 ∷ [];
  sizes = record { total_nodes = 2; total_pages = 1024; total_write_out = 64; total_read_in = 64 };
  config = record {
    node_id = 1;
    threshold = pos 64;
    total_write_out = 64;
    total_read_in = 64;
    n_mem_nodes = 2;
  };
}

-- A page of one process.
abbrev one_vma : AnonVma
one_vma =
    some (record { mm = some (record { owner = some (record { pid = 1234; comm = [] }) }) }) ∷ []

abbrev candidate : Candidate
candidate = record {
  mapcount = pos 1;
  count = pos 2;
  anon_vma = some one_vma;
  is_huge = false;
  split_fails = false;
}

host-Fits : Fits plain kernel settings host
host-Fits = record { pool = omega arith; nodes = omega arith; lent = λ n. tt }

host-AreValid : AreValid plain (settings.config) (host.out)
host-AreValid n = record { runs = tt; counted = refl; unlocked = refl }

host-IsConsistent : IsConsistent tree (λ e. 0) empty_cache
host-IsConsistent = record {
  held = λ e p f. absurd (none-not_some p f);
  back = λ p f. absurd (false-not_true f);
}
  where
    none-not_some : (p : ℕ) → none ≡ some p → ⊥
    none-not_some p e = cc

    false-not_true : false ≡ true → ⊥
    false-not_true e = cc

abbrev numbered : Reads ℕ
numbered = record {
  held = λ n p. 700 + p;
  accepts = λ n p slot size. true;
  fetch = λ n p size i. 700 + (p + i);
  fetch_is = λ n p size i h. refl;
}

abbrev guest : Guest ℕ (ℕ → ℕ) (ℕ → Option ℕ) ℕ
guest = record {
  host = (choose plain kernel settings host candidate 88).0;
  batches = λ n. [];
  messages = [];
  in_total = 0;
  in_local = 0;
}

swap_out-in_example :
    (entry : ℕ) × ((choose plain kernel settings host candidate 88).1 ≡ chosen entry)
    × ((fetch numbered kernel settings guest entry).1 ≡ copied 88)
    × Restored 1024 some_freed.lists (fetch numbered kernel settings guest entry).0.host.buddy
unfolding is_eligible is_ours get_task_struct first_owner rmap_counter
swap_out-in_example =
    swap_out-in plain numbered kernel settings host some_freed.lists candidate one_vma 88 130 guest
      host-Fits some_freed.valid refl refl page_130-free refl

-- Another process holds the entry in the first round; in the second one the page 7 goes into the
-- cache.
abbrev two_rounds : List Round
two_rounds =
    record { alloc = 7; preload = pos 0; prepare = eexist }
    ∷ record { alloc = 8; preload = pos 0; prepare = pos 0 }
    ∷ []
