-- ===== src/Buddy/Links/Ops.antt =====
-- The list operations on circular lists: what each does to its own list, and that it leaves every
-- other list alone.
use mathlib.Core.List.{append_assoc}
use comex.Base.{
  ◌≡◌, refl, ap, ◌↔◌, true, false, List, [], ◌∷◌, ◌++◌, arith, ◌==◌, update, inl, inr, ◌⊎◌,
}
use comex.Buddy.Links.{Ptr, Heads, init_list, list_empty, list_add, list_add_tail}
use comex.Buddy.Links.Ring.{
  has, ◌∉◌, Distinct, Chain, IsRing, has-append, Chain-append, Chain-split, Chain-frame, has-last,
  Chain-ends, Distinct-Sides, Distinct-append,
}

-- INIT_LIST_COMEX makes a list of no entries.
pub init_list-IsRing : (h : Heads) (head : Ptr) → IsRing (init_list h head) head []
unfolding init_list update
init_list-IsRing h head = record { chain = ground arith; apart = ground arith }

-- COMEX__list_empty says whether the list has no entry.
pub list_empty_iff :
    (h : Heads) (head : Ptr) (xs : List Ptr)
    → IsRing h head xs
    → (list_empty h head ≡ true) ↔ (xs ≡ [])
unfolding list_empty
list_empty_iff h head [] r = ground (arith, r.chain, r.apart)
list_empty_iff h head (x ∷ xs) r = ground (arith, r.chain, r.apart)

list_add-Chain :
    (h : Heads) (head new : Ptr) (xs : List Ptr)
    → Distinct (head ∷ xs)
    → new ∉ (head ∷ xs)
    → Chain h head xs head
    → Chain (list_add h new head) head (new ∷ xs) head
unfolding list_add update
list_add-Chain h head new [] d o c = ground arith
list_add-Chain h head new (x ∷ xs) d o c = (
  ground arith,
  ground arith,
  (
    ground arith,
    ground arith,
    Chain-frame h _ x xs head (λ p i. ground arith) (λ p i. ground arith) c.2,
  ),
)

-- COMEX_list_add puts a new entry in front.
pub list_add_lem :
    (h : Heads) (head new : Ptr) (xs : List Ptr)
    → new ∉ (head ∷ xs)
    → IsRing h head xs
    → IsRing (list_add h new head) head (new ∷ xs)
list_add_lem h head new xs o r = record {
  chain = list_add-Chain h head new xs r.apart o r.chain;
  apart = ground (arith, r.apart);
}

-- Nothing but the links at the addresses of `ts` differs.
abbrev pub SameOff : List Ptr → Heads → Heads → Type 0
SameOff ts h g = (p : Ptr) → p ∉ ts → (g.next p ≡ h.next p) × (g.prev p ≡ h.prev p)

abbrev pub Disjoint : List Ptr → List Ptr → Type 0
Disjoint xs ys = (p : Ptr) → has p xs ≡ true → p ∉ ys

-- A list is untouched by changes off its own addresses.
pub IsRing-frame :
    (ts : List Ptr) (h g : Heads) (head : Ptr) (xs : List Ptr)
    → SameOff ts h g
    → Disjoint (head ∷ xs) ts
    → IsRing h head xs
    → IsRing g head xs
IsRing-frame ts h g head xs s d r = record {
  chain = Chain-frame h g head xs head (λ p i. (s p (d p i)).0) (λ p i. (s p (d p i)).1) r.chain;
  apart = r.apart;
}

pub list_add-SameOff :
    (h : Heads) (head new : Ptr) (xs : List Ptr)
    → IsRing h head xs
    → SameOff (new ∷ head ∷ xs) h (list_add h new head)
unfolding list_add update
list_add-SameOff h head new [] r p o = ground (arith, r.chain)
list_add-SameOff h head new (x ∷ xs) r p o = ground (arith, r.chain)

-- A list of entries is empty, or has a last one.
snoc_cases : (xs : List Ptr) → (xs ≡ []) ⊎ ((ys : List Ptr) × (l : Ptr) × (xs ≡ ys ++ l ∷ []))
snoc_cases [] = inl refl
snoc_cases (x ∷ xs) = elim (snoc_cases xs) [
  | inl e ↦ inr ([], x, ap (λ r. x ∷ r) e)
  | inr (ys, l, e) ↦ inr (x ∷ ys, l, ap (λ r. x ∷ r) e)
]

list_add_tail-Chain :
    (h : Heads) (head new : Ptr) (ys : List Ptr) (l : Ptr)
    → Distinct (head ∷ ys ++ l ∷ [])
    → new ∉ (head ∷ ys ++ l ∷ [])
    → Chain h head (ys ++ l ∷ []) head
    → Chain (list_add_tail h new head) head (ys ++ l ∷ new ∷ []) head
unfolding list_add_tail update
list_add_tail-Chain h head new ys l d o c =
    let (c0, c1) = Chain-split h head ys l [] head c in
    let a = Distinct-Sides ys l [] d.1 in
    let hn = has-append new ys (l ∷ []) in
    let hh = has-append head ys (l ∷ []) in
    Chain-append _ head ys l (new ∷ []) head
      (Chain-frame h _ head ys l (λ p i. ground (arith, a.not_left))
        (λ p i. ground (arith, a.not_left)) c0)
      (ground arith, ground arith, (ground arith, ground arith))

-- COMEX_list_add_tail puts a new entry at the end.
pub list_add_tail_lem :
    (h : Heads) (head new : Ptr) (xs : List Ptr)
    → new ∉ (head ∷ xs)
    → IsRing h head xs
    → IsRing (list_add_tail h new head) head (xs ++ new ∷ [])
unfolding list_add_tail update
list_add_tail_lem h head new xs o r = record {
  chain = elim (snoc_cases xs) [
    | inl e ↦ rw e (list_add_tail_empty h head new (ground arith) (rw e at r.chain))
    | inr (ys, l, e) ↦
        rw (e, append_assoc)
          (list_add_tail-Chain h head new ys l (rw e at r.apart) (rw e at o) (rw e at r.chain))
  ];
  apart = (
    ground (arith, has-append head xs (new ∷ []), r.apart),
    Distinct-append xs (new ∷ []) r.apart.1 (refl, tt) (λ p i. ground arith),
  );
}
  where
    list_add_tail_empty :
        (h : Heads) (head new : Ptr)
        → (new == head) ≡ false
        → Chain h head [] head
        → Chain (list_add_tail h new head) head (new ∷ []) head
    list_add_tail_empty h head new n c = ground arith

pub list_add_tail-SameOff :
    (h : Heads) (head new : Ptr) (xs : List Ptr)
    → IsRing h head xs
    → SameOff (new ∷ head ∷ xs) h (list_add_tail h new head)
unfolding list_add_tail update
list_add_tail-SameOff h head new xs r p o =
    ground (arith, (Chain-ends h head xs head r.chain).1, has-last head xs)
