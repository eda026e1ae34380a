-- ===== src/Swap/Devices/Counts/Refines.antt =====
-- The operations of the swap devices refine those on the uses of a slot.
use comex.Base.{
  ℕ, ◌+◌, ◌^◌, ◌<◌, ◌≡◌, refl, ap, ◌∙◌, inl, inr, Bool, true, false, not, ◌||◌, Bool-cases, some,
  ◌==◌, ==_iff, ltb, leb, update, update_self, arith,
}
use comex.Swap.{Swapops}
use comex.Swap.Devices.{
  SwapMap, SwapInfo, Devices, has_bit, clear_bit, swap_free, swapcache_free, take_cache, take_more,
  swap_duplicate_once, swapcache_prepare,
}
use comex.Swap.Devices.Counts.{
  Use, IsSized, encode, SlotOp, drop_ref, drop_cache, add_ref, add_cache, IsAllowed, after,
  clear_bit_small, has_cache-encode, count-encode, with_cache-encode,
}
use comex.Swap.Devices.Counts.Steps.{
  byte, IsSlot, run, byte_at, byte-swap_entry_free, freed_byte, uncached_byte, in_use, found_info,
}

module _ {ℓ} {X : Type ℓ} (ops : Swapops) (m : SwapMap)
    (continued : X → (type offset count : ℕ) → X × Bool) (non_swap_entry : ℕ → Bool) where
  open ops use {swp_type, swp_offset}
  open m use {cache_bit, continued_bit, map_max, map_shmem}

  take_cache-encode :
      (u : Use)
      → u.refs < 2 ^ cache_bit
      → let out = take_cache ops m continued u.cached u.refs in
        (out.0 ≡ encode m (after add_cache u).0) × (out.1 ≡ (after add_cache u).1)
  unfolding take_cache after encode
  take_cache-encode u h = elim (Bool-cases u.cached) [
    | inl c ↦ rw c (with_cache-encode ops m continued true u.refs h, refl)
    | inr c ↦ rw c (elim (Bool-cases (u.refs == 0)) [
      | inl z ↦ rw z (refl, refl)
      | inr z ↦ rw z (with_cache-encode ops m continued true u.refs h, refl)
    ])
  ]

  take_more-encode :
      (x : X) (type offset : ℕ) (u : Use)
      → IsSized m
      → u.refs < map_max
      → let out = take_more ops m continued x type offset u.cached u.refs 1 in
        (out.1 ≡ encode m (after add_ref u).0) × (out.2 ≡ (after add_ref u).1)
  unfolding take_more after
  take_more-encode x type offset u s h =
      let bare = clear_bit_small continued_bit u.refs (omega (arith, s.below_continued)) in
      let less : ltb u.refs map_max ≡ true = ground arith in
      rw (bare, less)
        (elim (Bool-cases (not (u.refs == 0) || u.cached)) [
          | inl t ↦ rw t (
            with_cache-encode ops m continued u.cached (u.refs + 1) (omega (arith, s.below_cache)),
            refl,
          )
          | inr n ↦ rw n (
            with_cache-encode ops m continued u.cached u.refs (omega (arith, s.below_cache)),
            refl,
          )
        ])

  byte_stored :
      (d : Devices X) (p : SwapInfo) (entry v : ℕ) (x : X)
      → byte ops m continued non_swap_entry
          (record d {
            swap_info =
                update d.swap_info
                  (swp_type entry)
                  (some (record p { swap_map = update p.swap_map (swp_offset entry) v }));
            more = x;
          })
          entry
        ≡ v
  byte_stored d p entry v x =
      byte_at ops m continued non_swap_entry _ entry _ (update_self d.swap_info (swp_type entry) _)
      ∙ update_self p.swap_map (swp_offset entry) v

  -- __swap_duplicate for the cache and for one reference
  cached_once :
      (d : Devices X) (entry : ℕ) (p : SwapInfo) (u : Use)
      → IsSized m
      → IsSlot ops m continued non_swap_entry d entry p u
      → let out = swapcache_prepare ops m continued non_swap_entry d entry in
        (byte ops m continued non_swap_entry out.0 entry ≡ encode m (after add_cache u).0)
        × (out.1 ≡ (after add_cache u).1)
  unfolding swap_duplicate_once swapcache_prepare
  cached_once d entry p u z s =
      let t : leb d.nr_swapfiles (swp_type entry) ≡ false = ground (arith, s.a_device) in
      let r : leb p.max (swp_offset entry) ≡ false = ground (arith, s.in_range) in
      let h : u.refs < 2 ^ cache_bit = omega (arith, z.below_cache, s.refs) in
      let is_cache : (2 ^ cache_bit == 2 ^ cache_bit) ≡ true = (==_iff _ _).1 refl in
      let ent = p.swap_map (swp_offset entry) in
      let is : take_cache ops m continued (has_bit cache_bit ent) (clear_bit cache_bit ent)
          ≡ take_cache ops m continued u.cached u.refs =
        rw (s.holds, has_cache-encode m u h, count-encode m u h) refl in
      let spec = take_cache-encode u h in
      rw (s.swap_entry, s.other_type, t, s.at, r, is_cache)
        (byte_stored d p entry _ _ ∙ ap (λ o. o.0) is ∙ spec.0, ap (λ o. o.1) is ∙ spec.1)

  taken_once :
      (d : Devices X) (entry : ℕ) (p : SwapInfo) (u : Use)
      → IsSized m
      → IsSlot ops m continued non_swap_entry d entry p u
      → u.refs < map_max
      → let out = swap_duplicate_once ops m continued non_swap_entry d entry 1 in
        (byte ops m continued non_swap_entry out.0 entry ≡ encode m (after add_ref u).0)
        × (out.1 ≡ (after add_ref u).1)
  unfolding swap_duplicate_once
  taken_once d entry p u z s less =
      let t : leb d.nr_swapfiles (swp_type entry) ≡ false = ground (arith, s.a_device) in
      let r : leb p.max (swp_offset entry) ≡ false = ground (arith, s.in_range) in
      let h : u.refs < 2 ^ cache_bit = omega (arith, z.below_cache, s.refs) in
      let one : (1 == 2 ^ cache_bit) ≡ false = ground (arith, z.below_cache) in
      let ent = p.swap_map (swp_offset entry) in
      let more = λ (b : Bool) (n : ℕ).
        take_more ops m continued d.more (swp_type entry) (swp_offset entry) b n 1 in
      let is : more (has_bit cache_bit ent) (clear_bit cache_bit ent) ≡ more u.cached u.refs =
        rw (s.holds, has_cache-encode m u h, count-encode m u h) refl in
      let spec = take_more-encode d.more (swp_type entry) (swp_offset entry) u z less in
      rw (s.swap_entry, s.other_type, t, s.at, r, one)
        (byte_stored d p entry _ _ ∙ ap (λ o. o.1) is ∙ spec.0, ap (λ o. o.2) is ∙ spec.1)

  -- If the slot of an entry is in a device that is in use and its byte stands for a use whose count
  -- is not continued, and the operation is one that the kernel may do on that use, then the
  -- operation leaves the byte of the use, and returns the error, that it has by its meaning:
  -- swap_free drops a reference, swapcache_free the mark of the swap cache, __swap_duplicate adds a
  -- reference to a slot in use, and swapcache_prepare adds the mark to a slot with references that
  -- does not have it.
  pub run-after :
      (op : SlotOp) (d : Devices X) (entry : ℕ) (p : SwapInfo) (u : Use)
      → IsSized m
      → IsSlot ops m continued non_swap_entry d entry p u
      → IsAllowed m op u
      → let out = run ops m continued non_swap_entry op d entry in
        (byte ops m continued non_swap_entry out.0 entry ≡ encode m (after op u).0)
        × (out.1 ≡ (after op u).1)
  unfolding run IsAllowed after swap_free swapcache_free
  run-after drop_ref d entry p u z s h =
      let info =
        found_info ops m continued non_swap_entry d entry p u s
          (in_use ops m continued non_swap_entry u (omega (arith, h))) in
      rw (info, swap_free)
        (
          byte-swap_entry_free ops m continued non_swap_entry d p entry 1
              ∙ freed_byte ops m continued non_swap_entry d p entry u z s.holds h s.refs,
          refl,
        )
  run-after drop_cache d entry p u z s h =
      let info =
        found_info ops m continued non_swap_entry d entry p u s
          (in_use ops m continued non_swap_entry u (ground (arith, h))) in
      rw (info, swapcache_free)
        (
          byte-swap_entry_free ops m continued non_swap_entry d p entry (2 ^ cache_bit)
              ∙ uncached_byte ops m continued non_swap_entry d p entry u z s.holds s.refs,
          refl,
        )
  run-after add_ref d entry p u z s h = taken_once d entry p u z s h
  run-after add_cache d entry p u z s h = cached_once d entry p u z s
