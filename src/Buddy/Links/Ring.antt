-- ===== src/Buddy/Links/Ring.antt =====
-- What a circular list stands for, and that the list operations act on it as on a sequence.
use comex.Base.{◌≡◌, refl, ◌≢◌, Bool, true, false, ◌||◌, List, [], ◌∷◌, ◌++◌, arith, ◌==◌}
use comex.Buddy.Links.{Ptr, Heads}

abbrev pub has : Ptr → List Ptr → Bool
has a [] = false
has a (x ∷ xs) = (a == x) || has a xs

infix 40 ◌∉◌
abbrev pub ◌∉◌ : Ptr → List Ptr → Type 0
a ∉ xs = has a xs ≡ false

abbrev pub Distinct : List Ptr → Type 0
Distinct [] = Unit
Distinct (x ∷ xs) = (x ∉ xs) × Distinct xs

-- From `a` through `xs` to `b`, both ways.
abbrev pub Chain : Heads → Ptr → List Ptr → Ptr → Type 0
Chain h a [] b = (h.next a ≡ b) × (h.prev b ≡ a)
Chain h a (x ∷ xs) b = (h.next a ≡ x) × (h.prev x ≡ a) × Chain h x xs b

-- `head` heads the circular list of `xs`.
pub record IsRing (h : Heads) (head : Ptr) (xs : List Ptr) : Type 0 where
  pub chain : Chain h head xs head
  pub apart : Distinct (head ∷ xs)

pub has-append : (a : Ptr) (xs ys : List Ptr) → has a (xs ++ ys) ≡ (has a xs || has a ys)
has-append a [] ys = refl
has-append a (x ∷ xs) ys = ground (arith, has-append a xs ys)

pub Chain-append :
    (h : Heads) (a : Ptr) (xs : List Ptr) (m : Ptr) (ys : List Ptr) (b : Ptr)
    → Chain h a xs m
    → Chain h m ys b
    → Chain h a (xs ++ m ∷ ys) b
Chain-append h a [] m ys b p q = (p.0, p.1, q)
Chain-append h a (x ∷ xs) m ys b p q = (p.0, p.1, Chain-append h x xs m ys b p.2 q)

pub Chain-split :
    (h : Heads) (a : Ptr) (xs : List Ptr) (m : Ptr) (ys : List Ptr) (b : Ptr)
    → Chain h a (xs ++ m ∷ ys) b
    → Chain h a xs m × Chain h m ys b
Chain-split h a [] m ys b p = ((p.0, p.1), p.2)
Chain-split h a (x ∷ xs) m ys b p = let r = Chain-split h x xs m ys b p.2 in ((p.0, p.1, r.0), r.1)

-- A chain is read by `next` at `a` and `xs`, and by `prev` at `xs` and `b`.
pub Chain-frame :
    (h g : Heads) (a : Ptr) (xs : List Ptr) (b : Ptr)
    → ((p : Ptr) → has p (a ∷ xs) ≡ true → g.next p ≡ h.next p)
    → ((p : Ptr) → has p (b ∷ xs) ≡ true → g.prev p ≡ h.prev p)
    → Chain h a xs b
    → Chain g a xs b
Chain-frame h g a [] b n p c = ground (arith, n a, p b)
Chain-frame h g a (x ∷ xs) b n p c = (
  ground (arith, n a),
  ground (arith, p x),
  Chain-frame h g x xs b (λ q i. n q (ground arith)) (λ q i. p q (ground arith)) c.2,
)

-- The last address of `a ∷ xs`.
abbrev pub last : Ptr → List Ptr → Ptr
last a [] = a
last a (x ∷ xs) = last x xs

-- The first address of `xs ++ b`.
abbrev pub first : List Ptr → Ptr → Ptr
first [] b = b
first (x ∷ xs) b = x

pub has-last : (a : Ptr) (xs : List Ptr) → has (last a xs) (a ∷ xs) ≡ true
has-last a [] = ground arith
has-last a (x ∷ xs) = ground (arith, has-last x xs)

pub Chain-ends :
    (h : Heads) (a : Ptr) (xs : List Ptr) (b : Ptr)
    → Chain h a xs b
    → (h.next a ≡ first xs b) × (h.prev b ≡ last a xs)
Chain-ends h a [] b c = c
Chain-ends h a (x ∷ xs) b c = (c.0, (Chain-ends h x xs b c.2).1)

-- A chain led to another end: only the last link is new.
pub Chain-retarget :
    (h g : Heads) (a : Ptr) (xs : List Ptr) (m b : Ptr)
    → Distinct (a ∷ xs)
    → ((p : Ptr) → has p (a ∷ xs) ≡ true → p ≢ last a xs → g.next p ≡ h.next p)
    → ((p : Ptr) → has p xs ≡ true → g.prev p ≡ h.prev p)
    → g.next (last a xs) ≡ b
    → g.prev b ≡ last a xs
    → Chain h a xs m
    → Chain g a xs b
Chain-retarget h g a [] m b d n p nb pb c = (nb, pb)
Chain-retarget h g a (x ∷ xs) m b d n p nb pb c = (
  ground (arith, n a, has-last x xs),
  ground (arith, p x),
  Chain-retarget h g x xs m b d.1 (λ q i. n q (ground arith)) (λ q i. p q (ground arith)) nb pb c.2,
)

-- The two sides of an entry of a list of distinct addresses.
pub record Sides (ys : List Ptr) (m : Ptr) (zs : List Ptr) : Type 0 where
  pub left : Distinct ys
  pub right : Distinct zs
  pub not_left : m ∉ ys
  pub not_right : m ∉ zs
  pub across : (p : Ptr) → has p ys ≡ true → p ∉ zs

pub Distinct-Sides :
    (ys : List Ptr) (m : Ptr) (zs : List Ptr) → Distinct (ys ++ m ∷ zs) → Sides ys m zs
Distinct-Sides [] m zs d = record {
  left = tt;
  right = d.1;
  not_left = refl;
  not_right = d.0;
  across = λ p i. ground arith;
}
Distinct-Sides (y ∷ ys) m zs d =
    let r = Distinct-Sides ys m zs d.1 in
    let e = has-append y ys (m ∷ zs) in
    record {
      left = (ground arith, r.left);
      right = r.right;
      not_left = ground (arith, r.not_left);
      not_right = r.not_right;
      across = λ p i. ground (arith, r.across p);
    }

pub Distinct-join :
    (ys : List Ptr) (m : Ptr) (zs : List Ptr) → Sides ys m zs → Distinct (ys ++ m ∷ zs)
Distinct-join [] m zs s = (s.not_right, s.right)
Distinct-join (y ∷ ys) m zs s = (
  ground (arith, has-append y ys (m ∷ zs), s.not_left, s.left, s.across y),
  Distinct-join ys m zs (record {
    left = s.left.1;
    right = s.right;
    not_left = ground (arith, s.not_left);
    not_right = s.not_right;
    across = λ p i. s.across p (ground arith);
  }),
)

pub Distinct-append :
    (ys zs : List Ptr)
    → Distinct ys
    → Distinct zs
    → ((p : Ptr) → has p ys ≡ true → p ∉ zs)
    → Distinct (ys ++ zs)
Distinct-append [] zs d e x = e
Distinct-append (y ∷ ys) zs d e x = (
  ground (arith, has-append y ys zs, x y),
  Distinct-append ys zs d.1 e (λ p i. x p (ground arith)),
)
