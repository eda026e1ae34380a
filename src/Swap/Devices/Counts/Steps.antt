-- ===== src/Swap/Devices/Counts/Steps.antt =====
-- The operations of the swap devices on the uses of a slot.
use comex.Base.{
  ℕ, ◌+◌, ◌-◌, ◌^◌, ◌<◌, ◌≤◌, ◌≡◌, ◌≢◌, refl, ap, ◌∙◌, inl, inr, Bool, true, false, ◌&&◌,
  Bool-cases, none, some, ◌==◌, ==_iff, leb, if◌then◌else◌, update_self, arith,
}
use comex.Base.Bits.{pow_pos}
use comex.Base.Int.{ℤ, pos}
use comex.Swap.{Swapops}
use comex.Swap.Devices.{
  SwapMap, SwapInfo, Devices, is_comex, swap_info_get, dropped, with_cache, slot_freed,
  swap_entry_free, swap_free, swapcache_free, swap_duplicate_once, swapcache_prepare,
}
use comex.Swap.Devices.Counts.{
  Use, IsSized, encode, SlotOp, drop_ref, drop_cache, add_ref, add_cache, clear_bit_small,
  has_cache-encode, count-encode, with_cache-encode,
}

and_true : (b : Bool) → (b && true) ≡ b
and_true true = refl
and_true false = refl

and_false : (b : Bool) → (b && false) ≡ false
and_false true = refl
and_false false = refl

module _ {ℓ} {X : Type ℓ} (ops : Swapops) (m : SwapMap)
    (continued : X → (type offset count : ℕ) → X × Bool) (non_swap_entry : ℕ → Bool) where
  open ops use {swp_type, swp_offset}
  open m use {cache_bit, continued_bit, map_max, map_shmem}

  -- The byte of an entry's slot
  pub byte : Devices X → (entry : ℕ) → ℕ
  byte d entry = elim (d.swap_info (swp_type entry)) [
    | none ↦ 0
    | some p ↦ p.swap_map (swp_offset entry)
  ]

  -- An entry of a slot of a device in use
  pub record IsSlot (d : Devices X) (entry : ℕ) (p : SwapInfo) (u : Use) : Type ℓ where
    pub some_entry : entry ≢ 0
    pub swap_entry : non_swap_entry entry ≡ false
    pub other_type : is_comex (swp_type entry) ≡ false
    pub a_device : swp_type entry < d.nr_swapfiles
    pub at : d.swap_info (swp_type entry) ≡ some p
    pub used : p.used ≡ true
    pub in_range : swp_offset entry < p.max
    pub holds : p.swap_map (swp_offset entry) ≡ encode m u
    pub refs : u.refs ≤ map_max

  unfoldable pub run : SlotOp → Devices X → (entry : ℕ) → Devices X × ℤ
  run drop_ref d entry = (swap_free ops m continued d entry, pos 0)
  run drop_cache d entry = (swapcache_free ops m continued d entry, pos 0)
  run add_ref d entry = swap_duplicate_once ops m continued non_swap_entry d entry 1
  run add_cache d entry = swapcache_prepare ops m continued non_swap_entry d entry

  pub byte_at :
      (d : Devices X) (entry : ℕ) (p : SwapInfo)
      → d.swap_info (swp_type entry) ≡ some p
      → byte d entry ≡ p.swap_map (swp_offset entry)
  unfolding byte
  byte_at d entry p h = rw (h, byte) refl

  byte-slot_freed :
      (d : Devices X) (p : SwapInfo) (entry : ℕ)
      → byte (slot_freed ops m continued d p (swp_type entry) (swp_offset entry)) entry
        ≡ p.swap_map (swp_offset entry)
  unfolding slot_freed
  byte-slot_freed d p entry =
      byte_at (slot_freed ops m continued d p (swp_type entry) (swp_offset entry)) entry _
        (update_self _ (swp_type entry) _)

  pub byte-swap_entry_free :
      (d : Devices X) (p : SwapInfo) (entry usage : ℕ)
      → let out = swap_entry_free ops m continued d p entry usage in byte out.0 entry ≡ out.1
  unfolding swap_entry_free
  byte-swap_entry_free d p entry usage =
      elim (Bool-cases ((swap_entry_free ops m continued d p entry usage).1 == 0)) [
        | inl t ↦ rw t (byte-slot_freed _ _ entry ∙ update_self p.swap_map (swp_offset entry) _)
        | inr n ↦ rw n (
            byte_at _ entry _ (update_self d.swap_info (swp_type entry) _)
            ∙ update_self p.swap_map (swp_offset entry) _)
      ]

  -- The byte that swap_entry_free leaves
  dropped_ref :
      (x : X) (type offset : ℕ) (n : ℕ)
      → IsSized m
      → 0 < n
      → n ≤ map_max
      → (dropped ops m continued x type offset n 1).1 ≡ n - 1
  unfolding dropped
  dropped_ref x type offset n s h l =
      let one : (1 == 2 ^ cache_bit) ≡ false = ground (arith, s.below_cache) in
      let not_shmem : (n == map_shmem) ≡ false = ground (arith, s.below_shmem) in
      let counts : leb n map_max ≡ true = ground arith in
      let not_more : (n == 2 ^ continued_bit) ≡ false = ground (arith, s.below_continued) in
      let bare = clear_bit_small continued_bit n (omega (arith, s.below_continued)) in
      rw (one, not_shmem, bare, counts, not_more) refl

  pub freed_byte :
      (d : Devices X) (p : SwapInfo) (entry : ℕ) (u : Use)
      → IsSized m
      → p.swap_map (swp_offset entry) ≡ encode m u
      → 0 < u.refs
      → u.refs ≤ map_max
      → (swap_entry_free ops m continued d p entry 1).1 ≡ encode m (record u { refs = u.refs - 1 })
  unfolding swap_entry_free
  freed_byte d p entry u s holds h l =
      let fits : u.refs < 2 ^ cache_bit = omega (arith, s.below_cache) in
      let one : (1 == 2 ^ cache_bit) ≡ false = ground (arith, s.below_cache) in
      let rest = dropped_ref d.more (swp_type entry) (swp_offset entry) u.refs s h l in
      rw (holds, count-encode m u fits, has_cache-encode m u fits, one, rest)
        (ap (λ b. with_cache ops m continued b (u.refs - 1)) (and_true u.cached)
          ∙ with_cache-encode ops m continued u.cached (u.refs - 1) (omega (arith, fits)))

  pub uncached_byte :
      (d : Devices X) (p : SwapInfo) (entry : ℕ) (u : Use)
      → IsSized m
      → p.swap_map (swp_offset entry) ≡ encode m u
      → u.refs ≤ map_max
      → (swap_entry_free ops m continued d p entry (2 ^ cache_bit)).1
        ≡ encode m (record u { cached = false })
  unfolding swap_entry_free dropped
  uncached_byte d p entry u s holds l =
      let fits : u.refs < 2 ^ cache_bit = omega (arith, s.below_cache) in
      let same : (2 ^ cache_bit == 2 ^ cache_bit) ≡ true = (==_iff _ _).1 refl in
      rw (holds, count-encode m u fits, has_cache-encode m u fits, same)
        (ap (λ b. with_cache ops m continued b u.refs) (and_false u.cached)
          ∙ with_cache-encode ops m continued false u.refs fits)

  pub in_use : (u : Use) → 0 < u.refs + (if u.cached then 1 else 0) → (encode m u == 0) ≡ false
  unfolding encode
  in_use u h = ground (arith, pow_pos cache_bit)

  -- The device that swap_info_get finds
  pub found_info :
      (d : Devices X) (entry : ℕ) (p : SwapInfo) (u : Use)
      → IsSlot d entry p u
      → (encode m u == 0) ≡ false
      → swap_info_get ops m continued d entry ≡ some p
  unfolding swap_info_get
  found_info d entry p u s h =
      let e : (entry == 0) ≡ false = ground (arith, s.some_entry) in
      let t : leb d.nr_swapfiles (swp_type entry) ≡ false = ground (arith, s.a_device) in
      let r : leb p.max (swp_offset entry) ≡ false = ground (arith, s.in_range) in
      rw (e, s.other_type, t, s.at) (simp (s.used, r, s.holds, h))
