-- ===== src/WriteOut/Plain.antt =====
-- An example of the other node's memory, for the tests: every RDMA write succeeds.
use comex.Base.{ℕ, ◌+◌, ◌-◌, ◌<◌, ◌≡◌, refl, true, false, ◌&&◌, ltb, leb, if◌then◌else◌, arith}
use comex.WriteOut.{Verbs}

-- A node whose memory is a function of the page number.
abbrev pub write_pages : (ℕ → ℕ) → (page_no size : ℕ) → (ℕ → ℕ) → ℕ → ℕ
write_pages m page_no size pages j =
    if leb page_no j && ltb j (page_no + size) then pages (j - page_no) else m j

pub write_pages-here :
    (m : ℕ → ℕ) (page_no size : ℕ) (pages : ℕ → ℕ) (i : ℕ)
    → i < size
    → write_pages m page_no size pages (page_no + i) ≡ pages i
write_pages-here m page_no size pages i h =
    let inside : (leb page_no (page_no + i) && ltb (page_no + i) (page_no + size)) ≡ true =
      ground arith in
    let e : page_no + i - page_no ≡ i = omega arith in rw (inside, e) refl

pub write_pages-elsewhere :
    (m : ℕ → ℕ) (page_no size : ℕ) (pages : ℕ → ℕ) (j : ℕ)
    → (leb page_no j && ltb j (page_no + size)) ≡ false
    → write_pages m page_no size pages j ≡ m j
write_pages-elsewhere m page_no size pages j h = rw h refl

abbrev pub plain : Verbs ℕ (ℕ → ℕ)
plain = record {
  at = λ m j. m j;
  accepts = λ m slot page_no size. true;
  write = write_pages;
  write_here = write_pages-here;
  write_elsewhere = write_pages-elsewhere;
}
