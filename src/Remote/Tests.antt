-- ===== src/Remote/Tests.antt =====
-- Runs of the initialisation of the arrays.
use comex.Base.{ℕ, ◌<◌, ◌≡◌, true, [], ◌∷◌}
use comex.Base.Int.{pos}
use comex.Layout.{Sizes}
use comex.WriteOut.{Desc, no_page}
use comex.Remote.{Remote, init_remote}
use comex.Remote.Initial.{IsInitial, init_remote-IsInitial}

abbrev some_desc : Desc
some_desc = record { status = pos 2; node_id = pos 3; page_no = pos 4 }

-- What the memory held before.
abbrev memory : Remote ℕ
memory = record {
  free_group = λ n. record {
    total_page = pos 9;
    back_off = 3;
    locked = true;
    free_group = record { page_start = 1; page_end = 0 } ∷ [];
  };
  ring = λ n. record { buff = λ j. some_desc; contents = λ j. 0; head = 5; tail = 6 };
  read_in = record { buff = λ j. some_desc; contents = λ j. 0 };
  free_struct = λ n. [];
}

abbrev sizes : Sizes
sizes = record { total_nodes = 3; total_pages = 1024; total_write_out = 64; total_read_in = 32 }

init_remote-IsInitial_example :
    ((n : ℕ) → n < 3 → IsInitial 64 (init_remote sizes memory) n)
    × ((j : ℕ) → j < 32 → (init_remote sizes memory).read_in.buff j ≡ no_page)
init_remote-IsInitial_example = init_remote-IsInitial sizes memory
