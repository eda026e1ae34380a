-- ===== src/Init/Tests.antt =====
-- A pool of 1024 pages of which the first 160 have memory behind them.
use comex.Base.{ℕ, ◌+◌, ◌≡◌, refl, true, ltb, if◌then◌else◌}
use comex.Base.Int.{pos}
use comex.Buddy.{Buddy}
use comex.Buddy.Links.{max_order}
use comex.Layout.{Sizes}
use comex.Init.{init_areas, init_pages, free_each, drain, init_env}
use comex.Init.Filled.{Pool, is_mapped, init_env-Pool}

abbrev sizes : Sizes
sizes = record { total_nodes = 3; total_pages = 1024; total_write_out = 32; total_read_in = 64 }

abbrev memory : Buddy
memory = record {
  heads = record { next = λ p. 0; prev = λ p. 0 };
  nr_free = λ o. pos 5;
  page = λ j. record { page_no = 9; private = 9; mapcount = pos 9; cntr = pos 9 };
}

abbrev offset_to_addr : ℕ → ℕ
offset_to_addr offset = if ltb offset 1310720 then offset + 4096 else 0

init_env-Pool_example :
    ((drain 1025 (free_each (init_pages (init_areas memory max_order 0) 1024 0) 1024 0)).0 ≡ true)
    × Pool 1024
        (init_env sizes offset_to_addr memory)
        (λ j. if is_mapped sizes offset_to_addr j then 1 else 0)
init_env-Pool_example = init_env-Pool sizes offset_to_addr memory refl
