-- ===== src/Swap/Out/Entered.antt =====
-- What add_to_swap leaves behind.
use comex.Base.{
  ℕ, ◌≡◌, ◌≢◌, refl, ap, ◌∙◌, inl, inr, true, false, ◌&&◌, Bool-cases, Option, some, ◌==◌, arith,
}
use comex.Base.Int.{ℤ, pos, ◌==ℤ◌, ==ℤ_iff}
use comex.Buddy.Blocks.{Lists}
use comex.Swap.{SwapCache, add_to_swap_cache}
use comex.Swap.Consistent.{find, IsConsistent, Cached, cached, not_cached, add_to_swap_cache-Cached}
use comex.Swap.Flags.{update-IsConsistent}
use comex.Swap.Out.{Candidate, Host, Kernel, Settings, chosen, not_chosen, enter_cache}
use comex.Swap.Out.Chosen.{Chosen}
use comex.WriteOut.{Verbs}

module _ {ℓ κ μ ν} {A : Type ℓ} {M : Type κ} {T : Type μ} {K : Type ν} (verbs : Verbs A M)
    (kernel : Kernel T K) (settings : Settings) where
  open kernel use {radix, space, get_swap_page}
  open settings use {sizes, config}

  -- The pool, the queues and the rings are as before, and either the page is found under the
  -- entry and 1 is returned, or all lookups are as before and 0 is returned.
  pub data Entered (h : Host A M T K) (page entry : ℕ) (out : Host A M T K × ℕ)
      : Type (ℓ ⊔ κ ⊔ μ ⊔ ν) where
    entered :
        out.1 ≡ 1
        → find radix space (out.0).cache.tree entry ≡ some page
        → ((e : ℕ)
            → e ≢ entry
            → find radix space (out.0).cache.tree e ≡ find radix space h.cache.tree e)
        → Entered h page entry out
    not_entered :
        out.1 ≡ 0
        → ((e : ℕ) → find radix space (out.0).cache.tree e ≡ find radix space h.cache.tree e)
        → Entered h page entry out

  -- The parts of the node that entering leaves alone.
  pub record Untouched (h h' : Host A M T K) : Type (ℓ ⊔ κ) where
    pub buddy : h'.buddy ≡ h.buddy
    pub memory : h'.memory ≡ h.memory
    pub out : h'.out ≡ h.out

  pub enter_cache-Entered :
      (h : Host A M T K) (page : Candidate) (preload : ℤ) (p entry : ℕ)
      → IsConsistent radix space h.cache
      → (h.cache.page p).swap_cache ≡ false
      → let out = enter_cache verbs kernel settings h page preload p entry in
        Entered h p entry out × IsConsistent radix space (out.0).cache × Untouched h out.0
  unfolding enter_cache
  enter_cache-Entered h page preload p entry i free =
      let added = add_to_swap_cache-Cached radix space preload h.cache p entry i free in
      let done = add_to_swap_cache radix space preload h.cache p entry in
      elim (Bool-cases (entry == 0)) [
        | inl z ↦
            rw z
              (not_entered refl (λ e. refl), i, record { buddy = refl; memory = refl; out = refl })
        | inr z ↦ elim (Bool-cases (page.is_huge && page.split_fails)) [
          | inl t ↦
              rw (z, t)
                (
                  not_entered refl (λ e. refl),
                  i,
                  record { buddy = refl; memory = refl; out = refl },
                )
          | inr t ↦ elim (Bool-cases (done.1 ==ℤ pos 0)) [
            | inl ok ↦
                rw (z, t, ok)
                  (
                    success done added.0 ok _ refl refl,
                    update-IsConsistent radix space done.0 p _ refl refl added.1,
                    record { buddy = refl; memory = refl; out = refl },
                  )
            | inr bad ↦
                rw (z, t, bad)
                  (
                    failure done added.0 bad _ refl refl,
                    added.1,
                    record { buddy = refl; memory = refl; out = refl },
                  )
          ]
        ]
      ]
    where
      success :
          (done : SwapCache T × ℤ)
          → Cached radix space h.cache p entry done
          → (done.1 ==ℤ pos 0) ≡ true
          → (out : Host A M T K × ℕ) → out.1 ≡ 1
          → (out.0).cache.tree ≡ (done.0).tree
          → Entered h p entry out
      success done (cached ok here others) y out one same =
          entered one (ap (λ t. find radix space t entry) same ∙ here)
            (λ e n. ap (λ t. find radix space t e) same ∙ others e n)
      success done (not_cached bad others n) y out one same = absurd (bad ((==ℤ_iff _ _).0 y))

      failure :
          (done : SwapCache T × ℤ)
          → Cached radix space h.cache p entry done
          → (done.1 ==ℤ pos 0) ≡ false
          → (out : Host A M T K × ℕ) → out.1 ≡ 0
          → (out.0).cache.tree ≡ (done.0).tree
          → Entered h p entry out
      failure done (not_cached bad others n) y out one same =
          not_entered one (λ e. ap (λ t. find radix space t e) same ∙ others e)
      failure done (cached ok here others) y out one same =
          absurd (ground (arith, y, (==ℤ_iff _ _).1 ok))

  -- How a page is swapped out: the choice that is made, and what is left after the page is entered
  -- under the chosen entry, or under one of another device.
  pub data SwappedOut (h : Host A M T K) (ls : Lists) (page : Candidate) (p : ℕ) (a : A)
      : Option (Host A M T K × ℕ) → Type (ℓ ⊔ κ ⊔ μ ⊔ ν) where
    to_pool :
        (h' : Host A M T K) (entry : ℕ) (out : Host A M T K × ℕ)
        → Chosen verbs kernel settings h ls page a (h', chosen entry)
        → Entered h' p entry out
        → IsConsistent radix space (out.0).cache
        → Untouched h' out.0
        → SwappedOut h ls page p a (some out)
    to_disk :
        (h' : Host A M T K) (entry : ℕ) (out : Host A M T K × ℕ)
        → Chosen verbs kernel settings h ls page a (h', not_chosen)
        → (k : K) × (get_swap_page k ≡ (h'.devices, entry))
        → Entered h' p entry out
        → IsConsistent radix space (out.0).cache
        → Untouched h' out.0
        → SwappedOut h ls page p a (some out)
