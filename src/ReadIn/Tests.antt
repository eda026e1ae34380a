-- ===== src/ReadIn/Tests.antt =====
-- Runs of the read-in buffers.
use comex.Base.{ℕ, ◌+◌, ◌*◌, ◌≡◌, refl, true, ◌==◌, ◌&&◌, if◌then◌else◌, arith}
use comex.WriteOut.{no_page}
use comex.ReadIn.{Cache, Reads, read_remote_page, void_prefetch}
use comex.ReadIn.Coherent.{
  IsCoherent, ReadPage, prefetched_page, read_page, stale_page, no_page-not_holding,
  read_remote_page-held, void_prefetch-IsCoherent,
}

-- Page p of node n holds 1000 * n + p.
abbrev numbered : Reads ℕ
numbered = record {
  held = λ n p. n * 1000 + p;
  accepts = λ n p slot size. true;
  fetch = λ n p size i. n * 1000 + (p + i);
  fetch_is = λ n p size i h. refl;
}

abbrev nothing_read : Cache ℕ
nothing_read = record { buff = λ j. no_page; contents = λ j. 0 }

nothing_read-IsCoherent : (held : ℕ → ℕ → ℕ) → IsCoherent 64 held nothing_read
nothing_read-IsCoherent held = record {
  slot = λ j n p e. absurd (no_page-not_holding n p e);
  page = λ j n p e. absurd (no_page-not_holding n p e);
}

-- After a first read of page 70, page 75 is prefetched.
abbrev one_read : Cache ℕ
one_read = (read_remote_page 64 numbered nothing_read 2 70).1

one_read-IsCoherent : IsCoherent 64 (numbered.held) one_read
one_read-IsCoherent =
    by-cases _ refl
      (read_remote_page-held 4 (omega arith) numbered nothing_read (nothing_read-IsCoherent _) 2 70)
  where
    by-cases :
        (out : ℕ × Cache ℕ)
        → out.1 ≡ one_read
        → ReadPage 4 (omega arith) numbered nothing_read (nothing_read-IsCoherent _) 2 70 out
        → IsCoherent 64 (numbered.held) one_read
    by-cases out same (prefetched_page a e v k) = rw (← same, k) (nothing_read-IsCoherent _)
    by-cases out same (read_page e ok v k) = rw (← same) k
    by-cases out same (stale_page e f v k m) = absurd (ground (arith, f))

read_remote_page-held_example :
    ReadPage 4
      (omega arith)
      numbered
      one_read
      one_read-IsCoherent
      2
      75
      (read_remote_page 64 numbered one_read 2 75)
read_remote_page-held_example =
    read_remote_page-held 4 (omega arith) numbered one_read one_read-IsCoherent 2 75

-- Page 75 of node 2 is written.
abbrev rewritten : ℕ → ℕ → ℕ
rewritten n p = if n == 2 && p == 75 then 9 else n * 1000 + p

void_prefetch-IsCoherent_example : IsCoherent 64 rewritten (void_prefetch 64 one_read 2 75)
void_prefetch-IsCoherent_example =
    void_prefetch-IsCoherent 64 (numbered.held) rewritten one_read 2 75 one_read-IsCoherent
      (λ m q h. ground arith)
