-- ===== src/WriteOut/Tests.antt =====
-- Runs of the write-out ring.
use comex.Base.{ℕ, ◌+◌, ◌≡◌, refl, false, ◌==◌, if◌then◌else◌, arith}
use comex.Base.Int.{pos}
use comex.WriteOut.Plain.{plain}
use comex.WriteOut.{no_page, Ring, Verbs, flush_buff}
use comex.WriteOut.Failed.{flush_buff-loses}
use comex.WriteOut.Misdeliver.{full_slot, flush_buff-misdelivers}
use comex.WriteOut.View.{IsUnique, view, flush_buff-view}
use comex.WriteOut.Flush.{IsOrdered}

-- Slots 1 and 2 hold the pages 40 and 41.
abbrev two_full : Ring ℕ
two_full = record {
  buff = λ j.
      if j == 1
      then record { status = pos 2; node_id = pos 0; page_no = pos 40 }
      else if j == 2
      then record { status = pos 2; node_id = pos 0; page_no = pos 41 }
      else no_page;
  contents = λ j. 100 + j;
  head = 1;
  tail = 3;
}

two_full-IsOrdered : IsOrdered plain 32 (λ j. 0) two_full
two_full-IsOrdered = record { numbered = λ j e. ground arith; same_group = λ j e f g. ground arith }

two_full-IsUnique : IsUnique 32 two_full
two_full-IsUnique i j p x y v w = ground (arith, v.page, w.page, v.status, w.status)

flush_buff-view_example :
    ((p : ℕ)
      → view plain 32 (flush_buff plain 32 (λ j. 0) two_full) p
        ≡ view plain 32 (λ j. 0, two_full) p)
    × IsUnique 32 (flush_buff plain 32 (λ j. 0) two_full).1
flush_buff-view_example =
    flush_buff-view plain 32 (λ j. 0) two_full (omega arith) two_full-IsUnique two_full-IsOrdered
      (λ count h x. refl)

-- Slots 30 and 31, the last ones, hold the pages 31 and 1056.
abbrev two_groups : Ring ℕ
two_groups = record {
  buff = λ j. if j == 30 then full_slot 0 31 else if j == 31 then full_slot 0 1056 else no_page;
  contents = λ j. 100 + j;
  head = 30;
  tail = 0;
}

flush_buff-misdelivers_example :
    ((flush_buff plain 32 (λ j. 0) two_groups).0 32 ≡ 131)
    × ((flush_buff plain 32 (λ j. 0) two_groups).0 1056 ≡ 0)
flush_buff-misdelivers_example =
    flush_buff-misdelivers plain 32 (λ j. 0) two_groups 0 31 1056 refl refl refl refl
      (λ e. omega arith) refl

-- A node to which nothing can be written
abbrev closed : Verbs ℕ (ℕ → ℕ)
closed = record plain { accepts = λ m slot page_no size. false }

flush_buff-loses_example :
    (view closed 32 (λ j. 0, two_full) 40 ≡ 101)
    × (view closed 32 (flush_buff closed 32 (λ j. 0) two_full) 40 ≡ 0)
flush_buff-loses_example =
    flush_buff-loses closed 32 (λ j. 0) two_full 40 (omega arith) two_full-IsUnique
      (record { numbered = λ j e. ground arith; same_group = λ j e f g. ground arith })
      (λ count. refl) (record { status = refl; page = refl })
