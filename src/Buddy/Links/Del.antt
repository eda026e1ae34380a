-- ===== src/Buddy/Links/Del.antt =====
-- COMEX_list_del unlinks an entry of a circular list.
use comex.Base.{◌≡◌, ◌≢◌, true, false, List, [], ◌∷◌, ◌++◌, arith, ◌==◌, update}
use comex.Buddy.Links.{Ptr, Heads, list_del}
use comex.Buddy.Links.Ring.{
  has, ◌∉◌, Distinct, Chain, IsRing, has-append, Chain-split, Chain-frame, last, first, has-last,
  Chain-ends, Chain-retarget, Sides, Distinct-Sides, Distinct-append,
}
use comex.Buddy.Links.Ops.{SameOff}

first-apart :
    (p head : Ptr) (zs : List Ptr) → (p == head) ≡ false → p ∉ zs → (p == first zs head) ≡ false
first-apart p head [] n o = n
first-apart p head (z ∷ zs) n o = ground arith

Chain-glue :
    (h : Heads) (a : Ptr) (ys zs : List Ptr) (b : Ptr)
    → Chain h a ys (first zs b)
    → Chain h (last a ys) zs b
    → Chain h a (ys ++ zs) b
Chain-glue h a [] zs b c d = d
Chain-glue h a (y ∷ ys) zs b c d = (c.0, c.1, Chain-glue h y ys zs b c.2 d)

-- A chain begun at another address: only the first link is new.
Chain-restart :
    (h g : Heads) (a l : Ptr) (zs : List Ptr) (b : Ptr)
    → Distinct (b ∷ zs)
    → ((p : Ptr) → has p zs ≡ true → g.next p ≡ h.next p)
    → ((p : Ptr) → has p (b ∷ zs) ≡ true → p ≢ first zs b → g.prev p ≡ h.prev p)
    → g.next l ≡ first zs b
    → g.prev (first zs b) ≡ l
    → Chain h a zs b
    → Chain g l zs b
Chain-restart h g a l [] b d n p nl pl c = (nl, pl)
Chain-restart h g a l (z ∷ zs) b d n p nl pl c = (
  nl,
  pl,
  Chain-frame h g z zs b (λ q i. n q i) (λ q i. p q (ground arith) (ground (arith, d))) c.2,
)

module _ (h : Heads) (head : Ptr) (ys : List Ptr) (m : Ptr) (zs : List Ptr)
    (r : IsRing h head (ys ++ m ∷ zs)) where
  parts : Chain h head ys m × Chain h m zs head
  parts = Chain-split h head ys m zs head r.chain

  -- The links that the call reads.
  before : h.prev m ≡ last head ys
  before = (Chain-ends h head ys m parts.0).1

  after : h.next m ≡ first zs head
  after = (Chain-ends h m zs head parts.1).0

  sides : Sides ys m zs
  sides = Distinct-Sides ys m zs r.apart.1

  head_out : (head ∉ ys) × ((head == m) ≡ false) × (head ∉ zs)
  head_out = ground (arith, has-append head ys (m ∷ zs), r.apart.0)

  last_apart : has (last head ys) (head ∷ ys) ≡ true
  last_apart = has-last head ys

  last_ne : (last head ys == m) ≡ false
  last_ne = ground (arith, last_apart, sides.not_left, head_out)

  first_ne : (first zs head == m) ≡ false
  first_ne = ground (arith, first-apart m head zs (ground (arith, head_out)) sides.not_right)

  -- The front part now leads to what follows the entry.
  front : Chain (list_del h m) head ys (first zs head)
  unfolding list_del update
  front =
      Chain-retarget h _ head ys m (first zs head) (head_out.0, sides.left)
        (λ p i n. ground (arith, before, sides.not_left, head_out))
        (λ p i. ground (
          arith,
          after,
          sides.not_left,
          head_out,
          first-apart p head zs (ground (arith, head_out)) (sides.across p i),
        ))
        (ground (arith, before, after, last_ne)) (ground (arith, before, after, first_ne)) parts.0

  last_out : last head ys ∉ zs
  last_out = ground (arith, last_apart, head_out, sides.across (last head ys))

  link_next : (list_del h m).next (last head ys) ≡ first zs head
  unfolding list_del update
  link_next = ground (arith, before, after, last_ne)

  link_prev : (list_del h m).prev (first zs head) ≡ last head ys
  unfolding list_del update
  link_prev = ground (arith, before, after, first_ne)

  back : Chain (list_del h m) (last head ys) zs head
  unfolding list_del update
  back =
      Chain-restart h _ m (last head ys) zs head (head_out.2, sides.right)
        (λ p i. ground (arith, before, last_out, sides.not_right))
        (λ p i n. ground (arith, after, sides.not_right, head_out)) link_next link_prev parts.1

  -- COMEX_list_del takes the entry out of its list, and leaves it alone in a list of its own.
  pub list_del_lem : IsRing (list_del h m) head (ys ++ zs) × IsRing (list_del h m) m []
  unfolding list_del update
  list_del_lem = (
    record {
      chain = Chain-glue _ head ys zs head front back;
      apart = (
        ground (arith, has-append head ys zs, head_out),
        Distinct-append ys zs sides.left sides.right sides.across,
      );
    },
    record { chain = ground arith; apart = ground arith },
  )

  pub list_del-SameOff : SameOff (m ∷ head ∷ ys ++ zs) h (list_del h m)
  unfolding list_del update
  list_del-SameOff p o =
      ground (arith, before, after, last_apart, has-append p ys zs, first-apart p head zs)
