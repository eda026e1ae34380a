-- ===== src/Buddy/Counters.antt =====
-- COMEX_checkCtr: the use counter that tells a second allocation, or a second release, of a page.
use comex.Base.{
  ℕ, zero, suc, ◌+◌, ◌≤◌, ◌<◌, ◌≡◌, refl, ◌∙◌, ◌≢◌, Bool, true, false, ◌&&◌, arith, ltb, leb,
  if◌then◌else◌, update,
}
use comex.Base.Int.{ℤ, pos, minus_one, ◌+ℤ◌}
use comex.Buddy.{Buddy, check_ctr_loop, set_page}
use comex.Buddy.Blocks.{Lists}
use comex.Buddy.Shape.{IsShaped}

-- The two ways that the code calls it: with 1 on allocation, with -1 on release.
pub data Use : Type 0 where
  taking giving : Use

abbrev pub val_of : Use → ℤ
val_of taking = pos 1
val_of giving = minus_one

-- The counter that a page should have before, and has then after.
abbrev pub old_of : Use → ℕ
old_of taking = 0
old_of giving = 1

abbrev pub new_of : Use → ℕ
new_of taking = 1
new_of giving = 0

-- Two states that differ in counters only.
pub record SameButCounters (b b' : Buddy) : Type 0 where
  pub heads : b'.heads ≡ b.heads
  pub nr_free : b'.nr_free ≡ b.nr_free
  pub mapcount : (j : ℕ) → (b'.page j).mapcount ≡ (b.page j).mapcount
  pub private : (j : ℕ) → (b'.page j).private ≡ (b.page j).private
  pub page_no : (j : ℕ) → (b'.page j).page_no ≡ (b.page j).page_no

same_refl : (b : Buddy) → SameButCounters b b
same_refl b = record {
  heads = refl;
  nr_free = refl;
  mapcount = λ j. refl;
  private = λ j. refl;
  page_no = λ j. refl;
}

count_one :
    (b : Buddy) (i : ℕ) (c : ℤ) → SameButCounters b (set_page b i (record (b.page i) { cntr = c }))
unfolding update
count_one b i c = record {
  heads = refl;
  nr_free = refl;
  mapcount = λ j. ground arith;
  private = λ j. ground arith;
  page_no = λ j. ground arith;
}

same_trans : {a b c : Buddy} → SameButCounters a b → SameButCounters b c → SameButCounters a c
same_trans s t = record {
  heads = t.heads ∙ s.heads;
  nr_free = t.nr_free ∙ s.nr_free;
  mapcount = λ j. t.mapcount j ∙ s.mapcount j;
  private = λ j. t.private j ∙ s.private j;
  page_no = λ j. t.page_no j ∙ s.page_no j;
}

if_both :
    {b : Buddy} (t u : Bool) (x y : Buddy × Bool)
    → SameButCounters b x.0
    → SameButCounters b y.0
    → SameButCounters b (if t then x else if u then x else y).0
if_both true u x y p q = p
if_both false true x y p q = p
if_both false false x y p q = q

abbrev counted : Buddy → ℕ → ℤ → Buddy
counted b i val = set_page b i (record (b.page i) { cntr = (b.page i).cntr +ℤ val })

-- Whatever it finds, the call changes counters only.
pub check_ctr_loop-same :
    (b : Buddy) (n i : ℕ) (val : ℤ) → SameButCounters b (check_ctr_loop b n i val).0
unfolding check_ctr_loop
check_ctr_loop-same b zero i val = same_refl b
check_ctr_loop-same b (suc n) i val =
    if_both _ _ (counted b i val, false) (check_ctr_loop (counted b i val) n (i + 1) val)
      (count_one b i _)
      (same_trans (count_one b i _) (check_ctr_loop-same (counted b i val) n (i + 1) val))

-- If every page has the counter that it should, all are counted and the call succeeds.
pub check_ctr_loop-done :
    (u : Use) (b : Buddy) (n i : ℕ)
    → ((j : ℕ) → i ≤ j → j < i + n → (b.page j).cntr ≡ pos (old_of u))
    → ((check_ctr_loop b n i (val_of u)).1 ≡ true)
      × ((j : ℕ)
          → ((check_ctr_loop b n i (val_of u)).0.page j).cntr
            ≡ (if leb i j && ltb j (i + n) then pos (new_of u) else (b.page j).cntr))
unfolding check_ctr_loop update ◌+ℤ◌
check_ctr_loop-done u b zero i h = (refl, λ j. ground arith)
check_ctr_loop-done taking b (suc n) i h =
    let ih =
      check_ctr_loop-done taking (counted b i (pos 1)) n (i + 1) (λ j p q. ground (arith, h j)) in
    (ground (arith, h i, ih.0), λ j. ground (arith, h i, ih.1 j))
check_ctr_loop-done giving b (suc n) i h =
    let ih =
      check_ctr_loop-done giving (counted b i minus_one) n (i + 1) (λ j p q. ground (arith, h j)) in
    (ground (arith, h i, ih.0), λ j. ground (arith, h i, ih.1 j))

-- A page with another counter makes the call fail.
pub check_ctr_loop-refused :
    (u : Use) (b : Buddy) (n i j : ℕ)
    → i ≤ j
    → j < i + n
    → (b.page j).cntr ≢ pos (old_of u)
    → (check_ctr_loop b n i (val_of u)).1 ≡ false
unfolding check_ctr_loop update ◌+ℤ◌
check_ctr_loop-refused u b zero i j p q h = absurd (omega arith)
check_ctr_loop-refused taking b (suc n) i j p q h =
    ground (arith, check_ctr_loop-refused taking (counted b i (pos 1)) n (i + 1) j)
check_ctr_loop-refused giving b (suc n) i j p q h =
    ground (arith, check_ctr_loop-refused giving (counted b i minus_one) n (i + 1) j)

-- The shape does not depend on the counters.
pub IsShaped-same :
    {total : ℕ} {b b' : Buddy} {ls : Lists}
    → SameButCounters b b'
    → IsShaped total b ls
    → IsShaped total b' ls
IsShaped-same t s = record {
  ring = λ o h. rw t.heads (s.ring o h);
  count = λ o h. rw t.nr_free (s.count o h);
  marked = λ o p h i. rw (t.mapcount p, t.private p) (s.marked o p h i);
  listed = λ o p h l i. s.listed o p h l (rw (t.mapcount p, t.private p) at i);
}
