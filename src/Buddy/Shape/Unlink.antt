-- ===== src/Buddy/Shape/Unlink.antt =====
-- A block that leaves its list.
use mathlib.Core.List.{map-append}
use comex.Base.{
  ℕ, ◌<◌, ◌≡◌, ◌≢◌, inl, inr, true, false, List, ◌∷◌, ◌++◌, map, arith, ◌==◌, length, length-append,
  ap, update, Bool-cases, ==_iff,
}
use comex.Base.Int.{◌-ℤ◌}
use comex.Buddy.{Buddy, set_heads, rmv_page_order, dec_nr_free}
use comex.Buddy.Links.{max_order, Ptr, lru, list_del}
use comex.Buddy.Links.Ring.{has, ◌∉◌, IsRing, has-append, Sides, Distinct-Sides}
use comex.Buddy.Links.Ops.{IsRing-frame}
use comex.Buddy.Links.Del.{list_del_lem, list_del-SameOff}
use comex.Buddy.Blocks.{Lists}
use comex.Buddy.Shape.{IsShaped, has-lru, rings_apart}

-- The page of `p` leaves list `o`, is unmarked, and is no longer counted there.
abbrev pub unlink : Buddy → (o p : ℕ) → Buddy
unlink b o p = dec_nr_free (rmv_page_order (set_heads b (list_del b.heads (lru p))) p) o

module _ {total : ℕ} {b : Buddy} {ls : Lists} (s : IsShaped total b ls) (o : ℕ) (h : o < max_order)
    (ys : List ℕ) (p : ℕ) (zs : List ℕ) (e : ls o ≡ ys ++ p ∷ zs) where
  links_here : map lru (ls o) ≡ map lru ys ++ lru p ∷ map lru zs
  links_here = rw (e, map-append)

  IsRing-here : IsRing b.heads o (map lru ys ++ lru p ∷ map lru zs)
  IsRing-here = let r = s.ring o h in rw links_here at r

  sides : Sides (map lru ys) (lru p) (map lru zs)
  sides = Distinct-Sides (map lru ys) (lru p) (map lru zs) IsRing-here.apart.1

  p_here : has p (ls o) ≡ true
  p_here = rw e (ground (arith, has-append p ys (p ∷ zs)))

  p_gone : p ∉ (ys ++ zs)
  p_gone = ground (
    arith,
    has-append p ys zs,
    sides.not_left,
    sides.not_right,
    has-lru (lru p) ys,
    has-lru (lru p) zs,
  )

  p_lru : (q : Ptr) → q ∉ (o ∷ map lru (ls o)) → (q == lru p) ≡ false
  p_lru q n = ground (arith, has-lru q (ls o), p_here)

  IsRing-there :
      (o' : ℕ) → o' < max_order → o ≢ o' → IsRing (list_del b.heads (lru p)) o' (map lru (ls o'))
  IsRing-there o' h' n =
      IsRing-frame (lru p ∷ o ∷ map lru ys ++ map lru zs) b.heads _ o' (map lru (ls o'))
        (list_del-SameOff b.heads o (map lru ys) (lru p) (map lru zs) IsRing-here) off
        (s.ring o' h')
    where
      off :
          (q : Ptr)
          → has q (o' ∷ map lru (ls o')) ≡ true
          → q ∉ (lru p ∷ o ∷ map lru ys ++ map lru zs)
      off q i =
          let a = rings_apart s o o' h h' n q i in
          ground (
            arith,
            p_lru q a,
            has-append q (map lru ys) (map lru zs),
            has-append q (map lru ys) (lru p ∷ map lru zs),
            ap (has q) links_here,
          )

  IsRing-now :
      (o' : ℕ)
      → o' < max_order
      → IsRing (list_del b.heads (lru p)) o' (map lru (update ls o (ys ++ zs) o'))
  unfolding update
  IsRing-now o' h' = elim (Bool-cases (o' == o)) [
    | inl t ↦
        rw (t, (==_iff o' o).0 t, map-append)
          (list_del_lem b.heads o (map lru ys) (lru p) (map lru zs) IsRing-here).0
    | inr f ↦ rw f (IsRing-there o' h' (ground arith))
  ]

  pub unlink-IsShaped : IsShaped total (unlink b o p) (update ls o (ys ++ zs))
  unfolding update ◌-ℤ◌
  unlink-IsShaped = record {
    ring = IsRing-now;
    count = λ o' h'. ground (
      arith,
      s.count o' h',
      s.count o h,
      ap length e,
      length-append ys (p ∷ zs),
      length-append ys zs,
    );
    marked = λ o' q h' i. ground (
      arith,
      s.marked o' q h',
      e,
      has-append q ys zs,
      has-append q ys (p ∷ zs),
      p_gone,
      s.marked o p h p_here,
    );
    listed = λ o' q h' l i.
        ground (arith, s.listed o' q h' l, e, has-append q ys zs, has-append q ys (p ∷ zs));
  }
