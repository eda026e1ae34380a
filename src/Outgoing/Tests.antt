-- ===== src/Outgoing/Tests.antt =====
-- Runs of a page that goes out.
use comex.Base.{ℕ, update, ◌+◌, ◌≡◌, ◌≢◌, refl, false, [], ◌∷◌, ◌==◌, if◌then◌else◌, arith}
use comex.Base.Int.{pos}
use comex.FreeGroup.{FreeGroup}
use comex.WriteOut.{no_page, Ring}
use comex.WriteOut.Flush.{IsOrdered}
use comex.WriteOut.Plain.{plain}
use comex.WriteOut.View.{IsUnique, view}
use comex.Outgoing.{Out, Config, put_page, fill_slot, move_to_remote}
use comex.Outgoing.Put.{put_page-view}
use comex.Outgoing.Queue.{AreValid, Sent, move_to_remote-Sent}

-- Slot 31 holds page 40, and slot 32 is the next one.
abbrev one_full : Ring ℕ
one_full = record {
  buff = λ j.
      if j == 31 then record { status = pos 2; node_id = pos 0; page_no = pos 40 } else no_page;
  contents = λ j. 100 + j;
  head = 31;
  tail = 32;
}

one_full-IsUnique : IsUnique 64 one_full
one_full-IsUnique i j p x y v w = ground (arith, v.status, w.status)

fill_slot-IsOrdered : IsOrdered plain 64 (λ j. 0) (fill_slot plain 64 one_full 0 41 7)
unfolding fill_slot update
fill_slot-IsOrdered = record {
  numbered = λ j e. ground arith;
  same_group = λ j e f g. ground arith;
}

-- Page 41 is put into slot 32, and both pages are flushed.
put_page-view_example :
    let out = put_page plain 64 (λ j. 0, one_full) 0 41 7 in
    (view plain 64 out 41 ≡ 7)
    × ((q : ℕ) → q ≢ 41 → view plain 64 out q ≡ view plain 64 (λ j. 0, one_full) q)
    × IsUnique 64 out.1
put_page-view_example =
    put_page-view plain 64 one_full 0 41 7 refl (omega arith) one_full-IsUnique
      (λ j h w. ground (arith, w.status, w.page)) (λ j. 0) (omega arith) fill_slot-IsOrdered
      (λ count h x. refl)

-- The pages 9 to 10 are lent.
abbrev two_pages : FreeGroup
two_pages = record {
  total_page = pos 2;
  back_off = 4;
  locked = false;
  free_group = record { page_start = 9; page_end = 10 } ∷ [];
}

abbrev empty_ring : Ring ℕ
empty_ring = record { buff = λ j. no_page; contents = λ j. 0; head = 0; tail = 0 }

abbrev start : Out ℕ (ℕ → ℕ)
start = record {
  free_group = λ n. two_pages;
  ring = λ n. (λ j. 0, empty_ring);
  cache = record { buff = λ j. no_page; contents = λ j. 0 };
  requests = [];
}

abbrev sizes : Config
sizes = record {
  node_id = 1;
  threshold = pos 64;
  total_write_out = 64;
  total_read_in = 64;
  n_mem_nodes = 3;
}

start-AreValid : AreValid plain sizes start
start-AreValid n = record { runs = (omega arith, tt); counted = refl; unlocked = refl }

move_to_remote-Sent_example : Sent plain sizes start (move_to_remote plain sizes start 1234 5)
move_to_remote-Sent_example = move_to_remote-Sent plain sizes start 1234 5 start-AreValid
