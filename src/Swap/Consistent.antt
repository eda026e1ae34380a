-- ===== src/Swap/Consistent.antt =====
-- The swap cache and the pages' flags agree.
use comex.Base.{
  ℕ, ◌≡◌, ◌≢◌, refl, sym, ap, ◌∙◌, inl, inr, true, false, Bool-cases, Option, none, some, ◌==◌,
  ==_iff, update, update_self, update_ne, arith,
}
use comex.Base.Int.{ℤ, pos, ◌+ℤ◌, ◌-ℤ◌, ◌==ℤ◌, ==ℤ_iff}
use comex.Swap.{
  RadixTree, SwapPage, SwapCache, marked, unmarked, add_to_cache, add_to_swap_cache,
  delete_from_cache,
}

some-inj : (x y : ℕ) → some x ≡ some y → x ≡ y
some-inj x y e = cc

not_both : true ≡ false → ⊥
not_both e = cc

none-not_some : (x : ℕ) → none ≡ some x → ⊥
none-not_some x e = cc

module _ {ℓ} {T : Type ℓ} (radix : RadixTree T) (space : ℕ → ℕ) where
  -- The page that is cached for an entry.
  abbrev pub find : (ℕ → T) → ℕ → Option ℕ
  find tree e = radix.lookup (tree (space e)) e

  -- The cached pages are the marked ones, each under the entry that it carries.
  pub record IsConsistent (c : SwapCache T) : Type 0 where
    pub held :
        (e p : ℕ)
        → find c.tree e ≡ some p
        → ((c.page p).swap_cache ≡ true) × ((c.page p).private ≡ e)
    pub back : (p : ℕ) → (c.page p).swap_cache ≡ true → find c.tree (c.page p).private ≡ some p

  find-changed :
      (tree : ℕ → T) (s : ℕ) (t : T) (e : ℕ)
      → s ≡ space e
      → find (update tree s t) e ≡ radix.lookup t e
  find-changed tree s t e h = rw h (ap (λ x. radix.lookup x e) (update_self tree (space e) t))

  find-kept :
      (tree : ℕ → T) (s : ℕ) (t : T) (e : ℕ)
      → (s ≡ space e → radix.lookup t e ≡ radix.lookup (tree s) e)
      → find (update tree s t) e ≡ find tree e
  find-kept tree s t e h = elim (Bool-cases (space e == s)) [
    | inl y ↦
        let same : s ≡ space e = sym ((==_iff (space e) s).0 y) in
        find-changed tree s t e same ∙ h same ∙ ap (λ x. radix.lookup (tree x) e) same
    | inr n ↦ ap (λ x. radix.lookup x e) (update_ne tree s t (space e) (λ d. ground arith))
  ]

  -- How an insertion ends.
  pub data Added (c : SwapCache T) (page entry : ℕ) (out : SwapCache T × ℤ) : Type ℓ where
    added :
        out.1 ≡ pos 0
        → find c.tree entry ≡ none
        → find (out.0).tree entry ≡ some page
        → ((e : ℕ) → e ≢ entry → find (out.0).tree e ≡ find c.tree e)
        → (out.0).page ≡ update c.page page (marked radix space (c.page page) entry)
        → Added c page entry out
    failed :
        out.1 ≢ pos 0
        → ((e : ℕ) → find (out.0).tree e ≡ find c.tree e)
        → (out.0).page
          ≡ update c.page page (unmarked radix space (marked radix space (c.page page) entry))
        → (out.0).nrpages ≡ c.nrpages
        → Added c page entry out

  pub add_to_cache-Added :
      (c : SwapCache T) (page entry : ℕ)
      → Added c page entry (add_to_cache radix space c page entry)
  unfolding add_to_cache
  add_to_cache-Added c page entry =
      let t = c.tree (space entry) in
      let out = radix.insert t entry page in
      elim (Bool-cases (out.1 ==ℤ pos 0)) [
        | inl y ↦
            let ok : out.1 ≡ pos 0 = (==ℤ_iff _ _).0 y in
            rw y (
              added ok (radix.insert_new t entry page ok)
                (find-changed c.tree (space entry) out.0 entry refl
                  ∙ radix.insert_here t entry page ok)
                (λ e n.
                  find-kept c.tree (space entry) out.0 e
                    (λ s. radix.insert_elsewhere t entry page e n))
                refl)
        | inr n ↦
            let bad : out.1 ≢ pos 0 = λ e. ground (arith, (==ℤ_iff _ _).1 e) in
            rw n (
              failed bad
                (λ e.
                  find-kept c.tree (space entry) out.0 e
                    (λ s. ap (λ x. radix.lookup x e) (radix.insert_fails t entry page bad)))
                refl refl)
      ]

  -- Steps on which the flags of one page change.
  module _ (c c' : SwapCache T) (page : ℕ) (v : SwapPage)
      (same : c'.page ≡ update c.page page v) where
    page_changed : c'.page page ≡ v
    page_changed = ap (λ f. f page) same ∙ update_self c.page page v

    page_kept : (p : ℕ) → p ≢ page → c'.page p ≡ c.page p
    page_kept p n = ap (λ f. f p) same ∙ update_ne c.page page v p n

  -- A page that is not marked afterwards, while the other pages stay as they are cached.
  dropped-IsConsistent :
      (c c' : SwapCache T) (page : ℕ) (v : SwapPage)
      → c'.page ≡ update c.page page v
      → v.swap_cache ≡ false
      → ((e p : ℕ) → find c'.tree e ≡ some p → (find c.tree e ≡ some p) × (p ≢ page))
      → ((e p : ℕ) → find c.tree e ≡ some p → p ≢ page → find c'.tree e ≡ some p)
      → IsConsistent c
      → IsConsistent c'
  dropped-IsConsistent c c' page v same clear old new i = record {
    held = λ e p f.
        let before = old e p f in
        let flags = page_kept c c' page v same p before.1 in
        let is = i.held e p before.0 in
        (ap (λ x. x.swap_cache) flags ∙ is.0, ap (λ x. x.private) flags ∙ is.1);
    back = λ p f. elim (Bool-cases (p == page)) [
      | inl t ↦
          let flags = ap c'.page ((==_iff p page).0 t) ∙ page_changed c c' page v same in
          absurd (not_both (sym f ∙ ap (λ x. x.swap_cache) flags ∙ clear))
      | inr n ↦
          let other : p ≢ page = λ d. ground arith in
          let flags = page_kept c c' page v same p other in
          ap (λ x. find c'.tree x.private) flags
          ∙ new _ p (i.back p (ap (λ x. x.swap_cache) (sym flags) ∙ f)) other
    ];
  }

  -- A page that is not marked is not cached.
  unmarked-not_cached :
      (c : SwapCache T) (page : ℕ)
      → IsConsistent c
      → (c.page page).swap_cache ≡ false
      → (e p : ℕ) → find c.tree e ≡ some p
      → p ≢ page
  unmarked-not_cached c page i free e p f d =
      not_both (sym (i.held e p f).0 ∙ ap (λ x. (c.page x).swap_cache) d ∙ free)

  pub Added-IsConsistent :
      (c : SwapCache T) (page entry : ℕ) (out : SwapCache T × ℤ)
      → IsConsistent c
      → (c.page page).swap_cache ≡ false
      → Added c page entry out
      → IsConsistent out.0
  unfolding marked unmarked
  Added-IsConsistent c page entry out i free (added ok new here others same) = record {
    held = λ e p f. elim (Bool-cases (e == entry)) [
      | inl t ↦
          let at : e ≡ entry = (==_iff e entry).0 t in
          let is : page ≡ p = some-inj page p (sym here ∙ ap (find (out.0).tree) (sym at) ∙ f) in
          let flags = ap (out.0).page (sym is) ∙ page_changed c out.0 page _ same in
          (ap (λ x. x.swap_cache) flags, ap (λ x. x.private) flags ∙ sym at)
      | inr n ↦
          let old = i.held e p (sym (others e (λ d. ground arith)) ∙ f) in
          let other =
            unmarked-not_cached c page i free e p (sym (others e (λ d. ground arith)) ∙ f) in
          let flags = page_kept c out.0 page _ same p other in
          (ap (λ x. x.swap_cache) flags ∙ old.0, ap (λ x. x.private) flags ∙ old.1)
    ];
    back = λ p f. elim (Bool-cases (p == page)) [
      | inl t ↦
          let at : p ≡ page = (==_iff p page).0 t in
          let flags = ap (out.0).page at ∙ page_changed c out.0 page _ same in
          ap (λ x. find (out.0).tree x.private) flags ∙ here ∙ ap some (sym at)
      | inr n ↦
          let flags = page_kept c out.0 page _ same p (λ d. ground arith) in
          let old = i.back p (ap (λ x. x.swap_cache) (sym flags) ∙ f) in
          let other : (c.page p).private ≢ entry =
            λ d. none-not_some p (sym new ∙ ap (find c.tree) (sym d) ∙ old) in
          ap (λ x. find (out.0).tree x.private) flags ∙ others _ other ∙ old
    ];
  }
  Added-IsConsistent c page entry out i free (failed bad others same n) =
      dropped-IsConsistent c out.0 page _ same refl
        (λ e p f.
          let before = sym (others e) ∙ f in (before, unmarked-not_cached c page i free e p before))
        (λ e p f d. others e ∙ f) i

  -- How add_to_swap_cache ends. If it fails the page is as before, but for the entry that it carries.
  pub data Cached (c : SwapCache T) (page entry : ℕ) (out : SwapCache T × ℤ) : Type ℓ where
    cached :
        out.1 ≡ pos 0
        → find (out.0).tree entry ≡ some page
        → ((e : ℕ) → e ≢ entry → find (out.0).tree e ≡ find c.tree e)
        → Cached c page entry out
    not_cached :
        out.1 ≢ pos 0
        → ((e : ℕ) → find (out.0).tree e ≡ find c.tree e)
        → ((p : ℕ) → ((out.0).page p).count ≡ (c.page p).count)
        → Cached c page entry out

  count-unmarked :
      (p : SwapPage) (entry : ℕ)
      → (unmarked radix space (marked radix space p entry)).count ≡ p.count
  unfolding unmarked marked ◌+ℤ◌ ◌-ℤ◌
  count-unmarked p entry = ground arith

  -- If the swap cache and the pages' flags agree and the page is not marked as cached, they agree
  -- after add_to_swap_cache. If it returns 0 the page is found under the entry; else no lookup and no
  -- reference count has changed.
  pub add_to_swap_cache-Cached :
      (preload : ℤ) (c : SwapCache T) (page entry : ℕ)
      → IsConsistent c
      → (c.page page).swap_cache ≡ false
      → Cached c page entry (add_to_swap_cache radix space preload c page entry)
        × IsConsistent (add_to_swap_cache radix space preload c page entry).0
  unfolding add_to_swap_cache
  add_to_swap_cache-Cached preload c page entry i free = elim (Bool-cases (preload ==ℤ pos 0)) [
    | inl t ↦
        let out = add_to_cache-Added c page entry in
        rw t (by-cases _ out, Added-IsConsistent c page entry _ i free out)
    | inr n ↦ rw n (not_cached (λ e. ground (arith, (==ℤ_iff _ _).1 e)) (λ e. refl) (λ p. refl), i)
  ]
    where
      by-cases : (out : SwapCache T × ℤ) → Added c page entry out → Cached c page entry out
      by-cases out (added ok new here others same) = cached ok here others
      by-cases out (failed bad others same n) = not_cached bad others (λ p.
          elim (Bool-cases (p == page)) [
            | inl t ↦
                let at : p ≡ page = (==_iff p page).0 t in
                ap (λ x. ((out.0).page x).count) at
                ∙ ap (λ x. x.count) (page_changed c out.0 page _ same)
                ∙ count-unmarked (c.page page) entry
                ∙ ap (λ x. (c.page x).count) (sym at)
            | inr m ↦ ap (λ x. x.count) (page_kept c out.0 page _ same p (λ d. ground arith))
          ])

  -- If the swap cache and the pages' flags agree and the page is cached, then after
  -- __delete_from_swap_cache they agree, and exactly the page's entry is no longer found.
  pub delete_from_cache-IsConsistent :
      (c : SwapCache T) (page : ℕ)
      → IsConsistent c
      → (c.page page).swap_cache ≡ true
      → let out = delete_from_cache radix space c page in
        IsConsistent out
        × (find out.tree (c.page page).private ≡ none)
        × ((e : ℕ) → e ≢ (c.page page).private → find out.tree e ≡ find c.tree e)
  unfolding delete_from_cache
  delete_from_cache-IsConsistent c page i is = (
    dropped-IsConsistent c (delete_from_cache radix space c page) page _ refl refl
        (λ e p f.
          let other : e ≢ key = λ d.
            none-not_some p
              (sym gone ∙ ap (find (delete_from_cache radix space c page).tree) (sym d) ∙ f) in
          let before = sym (kept e other) ∙ f in
          (before, λ d. other (sym (i.held e p before).1 ∙ ap (λ x. (c.page x).private) d)))
        (λ e p f n.
          kept e (λ d. n (some-inj p page (sym f ∙ ap (find c.tree) d ∙ i.back page is))) ∙ f)
        i,
    gone,
    kept,
  )
    where
      key : ℕ
      key = (c.page page).private

      gone : find (delete_from_cache radix space c page).tree key ≡ none
      gone = find-changed c.tree (space key) _ key refl ∙ radix.delete_here (c.tree (space key)) key

      kept : (e : ℕ) → e ≢ key → find (delete_from_cache radix space c page).tree e ≡ find c.tree e
      kept e n =
          find-kept c.tree (space key) _ e
            (λ s. radix.delete_elsewhere (c.tree (space key)) key e n)
