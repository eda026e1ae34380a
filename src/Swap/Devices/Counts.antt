-- ===== src/Swap/Devices/Counts.antt =====
-- The byte of a slot in use as a number of references and a mark for the swap cache.
pub mod Steps
pub mod Refines
use native.Mathlib.Nat.{div-eq_of_lt, add-div_right}
use comex.Base.Errno.{enoent, eexist}
use comex.Base.{
  ℕ, zero, suc, ◌+◌, ◌-◌, ◌/◌, ◌%◌, ◌^◌, ◌<◌, ◌≤◌, ◌≡◌, ◌≢◌, refl, sym, ap, ◌∙◌, inl, inr, Bool,
  true, false, not, ◌&&◌, ◌||◌, Bool-cases, Option, none, some, ◌==◌, ==_iff, ltb, leb,
  if◌then◌else◌, update, update_self, update_ne, arith,
}
use comex.Base.Bits.{pow_pos}
use comex.Base.Int.{ℤ, pos}
use comex.Swap.{Swapops}
use comex.Swap.Devices.{
  SwapMap, SwapInfo, Devices, has_bit, clear_bit, set_bit, is_comex, swap_info_get, dropped,
  with_cache, slot_freed, set_highest_priority_index, swap_entry_free, swap_free, swapcache_free,
  take_cache, take_more, swap_duplicate_once, swapcache_prepare,
}

-- The references to a slot, and whether a page is in the swap cache for it
pub record Use : Type 0 where
  pub cached : Bool
  pub refs : ℕ

-- The numbers fit: a count that is not continued has neither of the two bits and is not the mark of
-- a shared page.
pub record IsSized (m : SwapMap) : Type 0 where
  pub below_cache : m.map_max < 2 ^ m.cache_bit
  pub below_continued : m.map_max < 2 ^ m.continued_bit
  pub below_shmem : m.map_max < m.map_shmem

unfoldable pub encode : SwapMap → Use → ℕ
encode m u = if u.cached then u.refs + 2 ^ m.cache_bit else u.refs

-- What the operations mean
pub data SlotOp : Type 0 where
  drop_ref drop_cache add_ref add_cache : SlotOp

-- Whether the kernel may do the operation, and the use and the error after it
unfoldable pub IsAllowed : SwapMap → SlotOp → Use → Type 0
IsAllowed m drop_ref u = 0 < u.refs
IsAllowed m drop_cache u = u.cached ≡ true
IsAllowed m add_ref u = u.refs < m.map_max
IsAllowed m add_cache u = Unit

unfoldable pub after : SlotOp → Use → Use × ℤ
after drop_ref u = (record u { refs = u.refs - 1 }, pos 0)
after drop_cache u = (record u { cached = false }, pos 0)
after add_ref u =
    if not (u.refs == 0) || u.cached then (record u { refs = u.refs + 1 }, pos 0) else (u, enoent)
after add_cache u =
    if u.cached
    then (u, eexist)
    else if u.refs == 0
    then (u, enoent)
    else (record u { cached = true }, pos 0)

has_bit_small : (b x : ℕ) → x < 2 ^ b → has_bit b x ≡ false
unfolding has_bit
has_bit_small b x h = rw (div-eq_of_lt h) refl

has_bit_plus : (b x : ℕ) → x < 2 ^ b → has_bit b (x + 2 ^ b) ≡ true
unfolding has_bit
has_bit_plus b x h = rw (add-div_right x (pow_pos b), div-eq_of_lt h) refl

pub clear_bit_small : (b x : ℕ) → x < 2 ^ b → clear_bit b x ≡ x
unfolding clear_bit
clear_bit_small b x h = rw (has_bit_small b x h) refl

clear_bit_plus : (b x : ℕ) → x < 2 ^ b → clear_bit b (x + 2 ^ b) ≡ x
unfolding clear_bit
clear_bit_plus b x h = rw (has_bit_plus b x h) (omega arith)

pub set_bit_small : (b x : ℕ) → x < 2 ^ b → set_bit b x ≡ x + 2 ^ b
unfolding set_bit
set_bit_small b x h = rw (has_bit_small b x h) refl

pub has_cache-encode :
    (m : SwapMap) (u : Use) → u.refs < 2 ^ m.cache_bit → has_bit m.cache_bit (encode m u) ≡ u.cached
unfolding encode
has_cache-encode m u h = elim (Bool-cases u.cached) [
  | inl t ↦ rw t (has_bit_plus m.cache_bit u.refs h)
  | inr n ↦ rw n (has_bit_small m.cache_bit u.refs h)
]

pub count-encode :
    (m : SwapMap) (u : Use) → u.refs < 2 ^ m.cache_bit → clear_bit m.cache_bit (encode m u) ≡ u.refs
unfolding encode
count-encode m u h = elim (Bool-cases u.cached) [
  | inl t ↦ rw t (clear_bit_plus m.cache_bit u.refs h)
  | inr n ↦ rw n (clear_bit_small m.cache_bit u.refs h)
]

pub with_cache-encode {ℓ} :
    {X : Type ℓ} (ops : Swapops) (m : SwapMap) (continued : X → (type offset count : ℕ) → X × Bool)
    (b : Bool) (n : ℕ)
    → n < 2 ^ m.cache_bit
    → with_cache ops m continued b n ≡ encode m (record { cached = b; refs = n })
unfolding with_cache encode
with_cache-encode ops m continued b n h = elim (Bool-cases b) [
  | inl t ↦ rw t (set_bit_small m.cache_bit n h)
  | inr f ↦ rw f refl
]
