-- ===== src/Swap/Devices/Outside.antt =====
-- What the operations of the swap devices do for the entries that COMEX makes.
use comex.Base.{ℕ, ◌≡◌, refl, inl, inr, Bool, true, Bool-cases, none, ◌==◌}
use comex.Swap.{Swapops}
use comex.Swap.Devices.{
  SwapMap, Devices, is_comex, swap_info_get, swap_free, swapcache_free, page_swapcount,
}

module _ {ℓ} {X : Type ℓ} (ops : Swapops) (m : SwapMap)
    (continued : X → (type offset count : ℕ) → X × Bool) where
  open ops use {swp_type}

  -- An entry of a type that COMEX uses and that no device has
  pub record IsOutside (d : Devices X) (entry : ℕ) : Type ℓ where
    pub type : is_comex (swp_type entry) ≡ true
    pub no_device : d.swap_info (swp_type entry) ≡ none

  pub swap_info_get-IsOutside :
      (d : Devices X) (entry : ℕ) → IsOutside d entry → swap_info_get ops m continued d entry ≡ none
  unfolding swap_info_get
  swap_info_get-IsOutside d entry o = elim (Bool-cases (entry == 0)) [
    | inl z ↦ rw z refl
    | inr z ↦ rw (z, o.type, o.no_device) refl
  ]

  pub swap_free-IsOutside :
      (d : Devices X) (entry : ℕ) → IsOutside d entry → swap_free ops m continued d entry ≡ d
  unfolding swap_free
  swap_free-IsOutside d entry o = rw (swap_info_get-IsOutside d entry o, swap_free) refl

  pub swapcache_free-IsOutside :
      (d : Devices X) (entry : ℕ) → IsOutside d entry → swapcache_free ops m continued d entry ≡ d
  unfolding swapcache_free
  swapcache_free-IsOutside d entry o = rw (swap_info_get-IsOutside d entry o, swapcache_free) refl

  pub page_swapcount-IsOutside :
      (d : Devices X) (entry : ℕ) → IsOutside d entry → page_swapcount ops m continued d entry ≡ 0
  unfolding page_swapcount
  page_swapcount-IsOutside d entry o = rw (swap_info_get-IsOutside d entry o, page_swapcount) refl
