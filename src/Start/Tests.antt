-- ===== src/Start/Tests.antt =====
-- Runs of krping_doit and krping_write_proc.
use comex.Base.{ℕ, ◌<◌, ◌≡◌, true, false, List, [], ◌∷◌, none, some, ◌==◌, if◌then◌else◌, length}
use comex.Base.Int.{pos}
use comex.Start.{Options, option_loop, Allocations}
use comex.Start.Ends.{option_loop-ends}

abbrev no_options : Options
no_options = record {
  addr_str = [];
  is_inet6 = false;
  port = 0;
  server = false;
  verbose = 0;
  total_pages = pos 0;
  write_out_buff = pos 0;
  read_in_buff = pos 0;
  proc_name = [];
  ret = pos 0;
}

-- "server,port=9"
abbrev text : List ℕ
text = 115 ∷ 101 ∷ 114 ∷ 118 ∷ 101 ∷ 114 ∷ 44 ∷ 112 ∷ 111 ∷ 114 ∷ 116 ∷ 61 ∷ 57 ∷ []

option_loop-ends_example :
    (o' : Options) × ((fuel : ℕ)
      → length text < fuel
      → option_loop (λ n. n) (λ v. (9, [])) fuel no_options (some text) ≡ some o')
option_loop-ends_example = option_loop-ends (λ n. n) (λ v. (9, [])) no_options text

-- The id of the second of three connections cannot be made.
abbrev no_second_id : Allocations
no_second_id = record {
  bigspace = true;
  cb = λ i. true;
  create_id = λ i. if i == 1 then some 11 else none;
}
