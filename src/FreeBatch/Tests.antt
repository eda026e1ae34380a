-- ===== src/FreeBatch/Tests.antt =====
-- Runs of the gathering of pages.
use comex.Base.{ℕ, ◌+◌, ◌≡◌}
use comex.FreeBatch.{first_of, free_to_remote}
use comex.FreeBatch.Conserve.{
  IsBatch, in_slots, in_sent, first_of-IsBatch, free_to_remote-conserves,
}
use comex.Reclaim.Runs.{in_run}

-- Page 7 waits, and page 6 comes.
free_to_remote-conserves_example :
    IsBatch (free_to_remote (first_of 7) 6).0
    × ((j : ℕ)
        → in_slots (free_to_remote (first_of 7) 6).0 j + in_sent (free_to_remote (first_of 7) 6).1 j
          ≡ in_slots (first_of 7) j + in_run 6 1 j)
free_to_remote-conserves_example = free_to_remote-conserves (first_of 7) 6 (first_of-IsBatch 7)
