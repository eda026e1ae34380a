-- ===== src/FreeBatch/Conserve.antt =====
-- No page is lost or named twice on its way back.
use mathlib.Core.Option
use comex.Base.{
  ℕ, zero, suc, ◌+◌, ◌-◌, ◌≤◌, ◌≡◌, refl, ap, ◌∙◌, inl, inr, false, ◌&&◌, Bool-cases, List, [], ◌∷◌,
  Option, none, some, ltb, if◌then◌else◌, arith, All, ◌==◌, replicate, length,
}
use comex.Base.Int.{pos, negsuc, minus_one, ◌+ℤ◌, ◌-ℤ◌, ◌==ℤ◌, +ℤ-pos, -ℤ-one, pos-==ℤ}
use comex.Reclaim.Runs.{in_run}
use comex.FreeBatch.{Slot, max_free, place_in, place, first_of, free_to_remote, clean_free_struct}

-- An entry is unused, with page -1 and count 0, or holds from 1 to 16383 pages.
pub data IsSlot : Slot → Type 0 where
  unused : IsSlot (record { page_no = minus_one; count = 0 })
  used : (p c : ℕ) → 1 ≤ c → c ≤ 16383 → IsSlot (record { page_no = pos p; count = c })

-- How often page `j` is named by an entry, and by a list of them.
unfoldable pub in_slot : Slot → ℕ → ℕ
in_slot s j = elim s.page_no [ pos p ↦ in_run p s.count j | negsuc k ↦ 0 ]

unfoldable pub in_slots : List Slot → ℕ → ℕ
in_slots [] j = 0
in_slots (s ∷ ss) j = in_slot s j + in_slots ss j

-- An entry takes the page, or leaves it.
data Placed (s : Slot) (page_no : ℕ) : Option Slot → Type 0 where
  left : Placed s page_no none
  taken :
      (s' : Slot)
      → IsSlot s'
      → ((j : ℕ) → in_slot s' j ≡ in_slot s j + in_run page_no 1 j)
      → Placed s page_no (some s')

in_run-grow : (p c j : ℕ) → in_run p (c + 1) j ≡ in_run p c j + in_run (p + c) 1 j
unfolding in_run
in_run-grow p c j = ground arith

in_run-before : (p c j : ℕ) → in_run p (c + 1) j ≡ in_run (suc p) c j + in_run p 1 j
unfolding in_run
in_run-before p c j = ground arith

-- What the tests of the loop come to at an unused entry, and at page 0.
unused-not_behind : (n : ℕ) → (minus_one +ℤ pos 0 ==ℤ pos n) ≡ false
unfolding ◌+ℤ◌
unused-not_behind n = ground arith

unused-not_before : (n : ℕ) → (minus_one -ℤ pos 1 ==ℤ pos n) ≡ false
unfolding ◌-ℤ◌
unused-not_before n = ground arith

zero-not_before : (n : ℕ) → (pos 0 -ℤ pos 1 ==ℤ pos n) ≡ false
unfolding ◌-ℤ◌
zero-not_before n = ground arith

used-not_unused : (p : ℕ) → (pos p ==ℤ minus_one) ≡ false
used-not_unused p = ground arith

-- An entry that is in use takes a page right behind or before its own.
place_in-used :
    (p c n : ℕ)
    → 1 ≤ c
    → c ≤ 16383
    → Placed
        (record { page_no = pos p; count = c })
        n
        (place_in (record { page_no = pos p; count = c }) n)
unfolding place_in in_slot
place_in-used p c n l h = elim (Bool-cases (p + c == n && ltb c 16383)) [
  | inl t ↦
      let e : p + c ≡ n = ground arith in
      rw (+ℤ-pos p c, pos-==ℤ (p + c) n, t)
        (taken _ (used p (c + 1) (omega arith) (ground arith)) (λ j. rw (← e) (in_run-grow p c j)))
  | inr f ↦ rw (+ℤ-pos p c, pos-==ℤ (p + c) n, f) (before p)
]
  where
    before :
        (p : ℕ)
        → Placed
            (record { page_no = pos p; count = c })
            n
            (if (pos p -ℤ pos 1 ==ℤ pos n) && ltb c 16383
              then some (record { page_no = pos p -ℤ pos 1; count = c + 1 })
              else if pos p ==ℤ minus_one
              then some (record { page_no = pos n; count = 1 })
              else none)
    before zero = rw (zero-not_before n) left
    before (suc q) = elim (Bool-cases (q == n && ltb c 16383)) [
      | inl t ↦
          let e : q ≡ n = ground arith in
          rw (-ℤ-one q, pos-==ℤ q n, t)
            (taken _ (used q (c + 1) (omega arith) (ground arith))
              (λ j. rw (← e) (in_run-before q c j)))
      | inr f ↦ rw (-ℤ-one q, pos-==ℤ q n, f, used-not_unused (suc q)) left
    ]

place_in-Placed : (s : Slot) (n : ℕ) → IsSlot s → Placed s n (place_in s n)
unfolding place_in in_slot
place_in-Placed s n unused =
    rw (unused-not_behind n, unused-not_before n)
      (taken (record { page_no = pos n; count = 1 }) (used n 1 (omega arith) (omega arith))
        (λ j. omega arith))
place_in-Placed s n (used p c l h) = place_in-used p c n l h

-- The same of a whole array: some entry takes the page, or none does.
data PlacedIn (ss : List Slot) (page_no : ℕ) : Option (List Slot) → Type 0 where
  all_left : PlacedIn ss page_no none
  one_taken :
      (ss' : List Slot)
      → All IsSlot ss'
      → length ss' ≡ length ss
      → ((j : ℕ) → in_slots ss' j ≡ in_slots ss j + in_run page_no 1 j)
      → PlacedIn ss page_no (some ss')

place-PlacedIn : (ss : List Slot) (n : ℕ) → All IsSlot ss → PlacedIn ss n (place ss n)
unfolding place in_slots
place-PlacedIn [] n v = all_left
place-PlacedIn (s ∷ ss) n v =
    here (place_in s n) (place_in-Placed s n v.0) (place ss n) (place-PlacedIn ss n v.1)
  where
    here :
        (o : Option Slot)
        → Placed s n o
        → (r : Option (List Slot)) → PlacedIn ss n r
        → PlacedIn (s ∷ ss) n (elim o [ some s' ↦ some (s' ∷ ss) | none ↦ Option.map (◌∷◌ s) r ])
    here o (taken s' w e) r rest = one_taken (s' ∷ ss) (w, v.1) refl (λ j. omega (arith, e j))
    here o left r all_left = all_left
    here o left r (one_taken ss' w k e) =
        one_taken (s ∷ ss') (v.0, w) (ap suc k) (λ j. omega (arith, e j))

-- How often page `j` is named by a message, if there is one.
unfoldable pub in_sent : Option (List Slot) → ℕ → ℕ
in_sent none j = 0
in_sent (some ss) j = in_slots ss j

-- The array of a node between two calls.
pub record IsBatch (ss : List Slot) : Type 0 where
  pub slots : All IsSlot ss
  pub size : length ss ≡ max_free

unused_entries : (k : ℕ) → All IsSlot (replicate k (record { page_no = minus_one; count = 0 }))
unused_entries zero = tt
unused_entries (suc k) = (unused, unused_entries k)

in_slots-unused :
    (k j : ℕ) → in_slots (replicate k (record { page_no = minus_one; count = 0 })) j ≡ 0
unfolding in_slots in_slot
in_slots-unused zero j = refl
in_slots-unused (suc k) j = omega (arith, in_slots-unused k j)

pub clean_free_struct-IsBatch : IsBatch clean_free_struct
clean_free_struct-IsBatch = record { slots = unused_entries max_free; size = refl }

pub first_of-IsBatch : (n : ℕ) → IsBatch (first_of n)
first_of-IsBatch n = record {
  slots = (used n 1 (omega arith) (omega arith), unused_entries (max_free - 1));
  size = refl;
}

in_slots-first_of : (n j : ℕ) → in_slots (first_of n) j ≡ in_run n 1 j
unfolding in_slots in_slot
in_slots-first_of n j = omega (arith, in_slots-unused (max_free - 1) j)

-- COMEX_free_to_remote keeps an array of 16 entries of at most 16383 pages each, and loses no page:
-- each page is named by the new array and the message together as often as by the old array and
-- the call.
pub free_to_remote-conserves :
    (ss : List Slot) (page_no : ℕ)
    → IsBatch ss
    → IsBatch (free_to_remote ss page_no).0
      × ((j : ℕ)
          → in_slots (free_to_remote ss page_no).0 j + in_sent (free_to_remote ss page_no).1 j
            ≡ in_slots ss j + in_run page_no 1 j)
unfolding free_to_remote in_sent
free_to_remote-conserves ss n v = by-cases (place ss n) (place-PlacedIn ss n v.slots)
  where
    by-cases :
        (o : Option (List Slot))
        → PlacedIn ss n o
        → (let out : List Slot × Option (List Slot) = elim o [
          | some ss' ↦ (ss', none)
          | none ↦ (first_of n, some ss)
        ] in
            IsBatch out.0
            × ((j : ℕ) → in_slots out.0 j + in_sent out.1 j ≡ in_slots ss j + in_run n 1 j))
    by-cases o (one_taken ss' w k e) =
        (record { slots = w; size = k ∙ v.size }, λ j. omega (arith, e j))
    by-cases o all_left = (first_of-IsBatch n, λ j. omega (arith, in_slots-first_of n j))
