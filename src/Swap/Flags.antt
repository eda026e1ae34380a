-- ===== src/Swap/Flags.antt =====
-- Steps that change pages but neither what is cached nor their flags.
use comex.Base.{
  ℕ, suc, ◌≡◌, refl, sym, ap, ◌∙◌, inl, inr, true, false, Bool-cases, some, ◌==◌, ==_iff, update,
  update_self, update_ne, arith,
}
use comex.Swap.{RadixTree, SwapPage, SwapCache, lookup_swap_cache}
use comex.Base.Int.{pos, ◌+ℤ◌}
use comex.Swap.Consistent.{find, IsConsistent}

pub field-update {ℓ} :
    {X : Type ℓ} (g : SwapPage → X) (f : ℕ → SwapPage) (i : ℕ) (v : SwapPage)
    → g v ≡ g (f i)
    → (p : ℕ) → g (update f i v p) ≡ g (f p)
field-update g f i v h p = elim (Bool-cases (p == i)) [
  | inl t ↦
      let at : p ≡ i = (==_iff p i).0 t in
      ap (λ x. g (update f i v x)) at ∙ ap g (update_self f i v) ∙ h ∙ ap (λ x. g (f x)) (sym at)
  | inr n ↦ ap g (update_ne f i v p (λ e. ground arith))
]

module _ {ℓ} {T : Type ℓ} (radix : RadixTree T) (space : ℕ → ℕ) where
  -- A change of one page that keeps its flags.
  pub update-IsConsistent :
      (c : SwapCache T) (page : ℕ) (v : SwapPage)
      → v.swap_cache ≡ (c.page page).swap_cache
      → v.private ≡ (c.page page).private
      → IsConsistent radix space c
      → IsConsistent radix space (record c { page = update c.page page v })
  update-IsConsistent c page v f g i = record {
    held = λ e p h. let was = i.held e p h in (flag p ∙ was.0, key p ∙ was.1);
    back = λ p h. ap (find radix space c.tree) (key p) ∙ i.back p (sym (flag p) ∙ h);
  }
    where
      flag : (p : ℕ) → (update c.page page v p).swap_cache ≡ (c.page p).swap_cache
      flag p = field-update (λ x. x.swap_cache) c.page page v f p

      key : (p : ℕ) → (update c.page page v p).private ≡ (c.page p).private
      key p = field-update (λ x. x.private) c.page page v g p

  -- If the lookups are the same, a page that was not marked is not marked.
  pub unmarked-stays :
      (c c' : SwapCache T)
      → IsConsistent radix space c
      → IsConsistent radix space c'
      → ((e : ℕ) → find radix space c'.tree e ≡ find radix space c.tree e)
      → (p : ℕ) → (c.page p).swap_cache ≡ false
      → (c'.page p).swap_cache ≡ false
  unmarked-stays c c' i i' same p f = elim (Bool-cases (c'.page p).swap_cache) [
    | inr n ↦ n
    | inl t ↦
        let key = (c'.page p).private in
        let is = i.held key p (sym (same key) ∙ i'.back p t) in ground (arith, f, is.0)
  ]

  -- lookup_swap_cache takes a reference to the page.
  pub looked_up :
      (c : SwapCache T) (entry page : ℕ)
      → IsConsistent radix space c
      → find radix space c.tree entry ≡ some page
      → let c' = (lookup_swap_cache radix space c entry).0 in
        ((lookup_swap_cache radix space c entry).1 ≡ some page)
        × IsConsistent radix space c'
        × ((c'.page page).swap_cache ≡ true)
        × ((c'.page page).private ≡ entry)
        × (c'.tree ≡ c.tree)
  unfolding lookup_swap_cache
  looked_up c entry page i h =
      let counted : SwapCache T = record c {
        find_total = suc c.find_total;
        find_success = suc c.find_success;
      } in
      let is = i.held entry page h in
      let before : IsConsistent radix space counted = record { held = i.held; back = i.back } in
      let v = record (c.page page) { count = (c.page page).count +ℤ pos 1 } in
      rw (h, lookup_swap_cache)
        (
          refl,
          update-IsConsistent counted page _ refl refl before,
          field-update (λ x. x.swap_cache) c.page page v refl page ∙ is.0,
          field-update (λ x. x.private) c.page page v refl page ∙ is.1,
          refl,
        )
