-- ===== src/Swap/Out/Pooled.antt =====
-- What add_to_swap leaves when it has put a page into the pool and returns 1.
use mathlib.Core.Path.{subst}
use comex.Base.{
  ℕ, suc, ◌≡◌, ◌≢◌, refl, sym, ap, ◌∙◌, true, false, ◌&&◌, Option, none, some, ◌==◌, arith,
}
use comex.Base.Int.{ℤ, pos, pos_part}
use comex.Buddy.Blocks.{Lists, cover}
use comex.Buddy.Valid.{IsValid}
use comex.Buddy.Alloc.{Taken}
use comex.Outgoing.Queue.{AreValid}
use comex.Rmap.{AnonVma, rmap_counter, get_page_pid}
use comex.Buddy.{Buddy}
use comex.Local.{move_to_comex}
use comex.Outgoing.{Out, Destination, sent_to, nowhere, undefined, move_to_remote}
use comex.Swap.{local, disk, place_of, local_entry, remote_entry, add_to_swap_cache, add_to_cache}
use comex.Swap.Consistent.{find, IsConsistent}
use comex.Swap.Out.{
  Candidate, Host, Kernel, Settings, Choice, chosen, not_chosen, crash, is_eligible, choose_remote,
  choose_pool, choose, enter_cache, add_to_swap,
}
use comex.Swap.Out.Chosen.{
  Chosen, in_pool, in_remote, on_disk, Fits, choose-PoolChoice, choose-is_pool, choose-Chosen,
}
use comex.Swap.Out.Entered.{Entered, entered, not_entered, enter_cache-Entered}
use comex.WriteOut.{Verbs}

module _ {ℓ κ μ ν} {A : Type ℓ} {M : Type κ} {T : Type μ} {K : Type ν} (verbs : Verbs A M)
    (kernel : Kernel T K) (settings : Settings) where
  open kernel use {radix, space, swapops}
  open settings use {sizes, config}

  -- A page of the pool that was free is taken, and the page is found under its entry.
  pub record Pooled (ls : Lists) (p : ℕ) (h' : Host A M T K) : Type ℓ where
    pub page_no : ℕ
    pub entry : ℕ
    pub place : place_of swapops entry ≡ local page_no
    pub was_free : cover ls page_no ≡ 1
    pub taken : Taken (sizes.total_pages) ls 0 page_no h'.buddy
    pub here : find radix space h'.cache.tree entry ≡ some p
    pub consistent : IsConsistent radix space h'.cache

  same_cache :
      (h : Host A M T K) (ls : Lists) (page : Candidate) (a : A) (t : Host A M T K × Choice)
      → Chosen verbs kernel settings h ls page a t
      → (t.0).cache ≡ h.cache
  same_cache h ls page a t (in_pool q e h' y x c k r o u s) = s
  same_cache h ls page a t (in_remote n q e h' y z x c k r o u s) = s
  same_cache h ls page a t (on_disk h' y x c k r s) = s

  found_here :
      (h h' : Host A M T K) (p entry : ℕ)
      → Entered verbs kernel settings h p entry (h', 1)
      → find radix space h'.cache.tree entry ≡ some p
  found_here h h' p entry (entered one here others) = here
  found_here h h' p entry (not_entered none_there same) = absurd (ground arith)

  pub add_to_swap-Pooled :
      (h : Host A M T K) (ls : Lists) (page : Candidate) (avcs : AnonVma) (preload : ℤ) (p : ℕ)
      (a : A) (j : ℕ) (h' : Host A M T K)
      → Fits verbs kernel settings h
      → IsValid (sizes.total_pages) h.buddy ls
      → AreValid verbs config h.out
      → IsConsistent radix space h.cache
      → (h.cache.page p).swap_cache ≡ false
      → page.anon_vma ≡ some avcs
      → (is_eligible verbs kernel settings page && rmap_counter avcs == 1) ≡ true
      → cover ls j ≡ 1
      → add_to_swap verbs kernel settings h page preload p a ≡ some (h', 1)
      → Pooled ls p h'
  unfolding add_to_swap
  add_to_swap-Pooled h ls page avcs preload p a j h' fit v w i unmarked e t free back =
      let c = choose-PoolChoice verbs kernel settings h ls page avcs a j fit v e t free in
      let done = choose verbs kernel settings h page a in
      let cache =
        same_cache h ls page a done (choose-Chosen verbs kernel settings h ls page a fit v w) in
      let g : Host A M T K = record done.0 { swap_to_comex = suc (done.0).swap_to_comex } in
      let en =
        enter_cache-Entered verbs kernel settings g page preload p c.entry (rw cache i)
          (rw cache unmarked) in
      let is : enter_cache verbs kernel settings g page preload p c.entry ≡ (h', 1) =
        some-inj _ _ (sym (rw (c.chose, add_to_swap) refl) ∙ back) in
      record {
        page_no = c.page_no;
        entry = c.entry;
        place = c.place;
        was_free = c.was_free;
        taken =
            subst (Taken (sizes.total_pages) ls 0 c.page_no)
              (sym (en.2).buddy ∙ ap (λ o. (o.0).buddy) is) c.taken;
        here =
            found_here g h' p c.entry (subst (Entered verbs kernel settings g p c.entry) is en.0);
        consistent = subst (λ o. IsConsistent radix space (o.0).cache) is en.1;
      }
    where
      some-inj : (x y : Host A M T K × ℕ) → some x ≡ some y → x ≡ y
      some-inj x y e = cc

  choose_remote-devices :
      (h : Host A M T K) (pid : ℕ) (a : A)
      → (choose_remote verbs kernel settings h pid a).0.devices ≡ h.devices
  unfolding choose_remote
  choose_remote-devices h pid a = by-cases (move_to_remote verbs config h.out pid a)
    where
      by-cases :
          (t : Out A M × Destination)
          → let moved : Host A M T K × Choice = elim t.1 [
            | sent_to n p ↦ (record h { out = t.0 }, chosen (remote_entry swapops n p))
            | nowhere ↦ (record h { out = t.0 }, not_chosen)
            | undefined ↦ (record h { out = t.0 }, crash)
          ] in
            (moved.0).devices ≡ h.devices
      by-cases (o, sent_to n p) = refl
      by-cases (o, nowhere) = refl
      by-cases (o, undefined) = refl

  choose_pool-devices :
      (h : Host A M T K) (page : Candidate) (a : A)
      → (choose_pool verbs kernel settings h page a).0.devices ≡ h.devices
  unfolding choose_pool
  choose_pool-devices h page a =
      by-cases (move_to_comex sizes h.buddy h.memory a) (get_page_pid page.anon_vma)
    where
      by-cases :
          (t : Buddy × (ℕ → A) × Option ℕ) (o : Option ℤ)
          → let g : Host A M T K = record h { buddy = t.0; memory = t.1 } in
            let out : Host A M T K × Choice = elim t.2 [
              | some p ↦ (g, chosen (local_entry swapops p))
              | none ↦ elim o [
                | none ↦ (g, crash)
                | some pid ↦ choose_remote verbs kernel settings g (pos_part pid) a
              ]
            ] in
            (out.0).devices ≡ h.devices
      by-cases (b, x, some p) o = refl
      by-cases (b, x, none) none = refl
      by-cases (b, x, none) (some pid) = choose_remote-devices _ (pos_part pid) a

  choose-devices :
      (h : Host A M T K) (ls : Lists) (page : Candidate) (avcs : AnonVma) (a : A)
      → page.anon_vma ≡ some avcs
      → (is_eligible verbs kernel settings page && rmap_counter avcs == 1) ≡ true
      → (choose verbs kernel settings h page a).0.devices ≡ h.devices
  choose-devices h ls page avcs a e t =
      ap (λ o. (o.0).devices) (choose-is_pool verbs kernel settings h page avcs a e t)
      ∙ choose_pool-devices h page a

  enter_cache_succeeds :
      (g : Host A M T K) (page : Candidate) (p entry : ℕ)
      → (entry == 0) ≡ false
      → page.is_huge ≡ false
      → (radix.insert (g.cache.tree (space entry)) entry p).1 ≡ pos 0
      → let out = enter_cache verbs kernel settings g page (pos 0) p entry in
        (out.1 ≡ 1) × ((out.0).devices ≡ g.devices)
  unfolding enter_cache add_to_swap_cache add_to_cache
  enter_cache_succeeds g page p entry z small ins = rw (z, small, ins) (refl, refl)

  -- If the entry goes into the swap cache, add_to_swap returns 1 and leaves the other devices alone.
  pub add_to_swap_succeeds :
      (h : Host A M T K) (ls : Lists) (page : Candidate) (avcs : AnonVma) (p : ℕ) (a : A) (j : ℕ)
      → Fits verbs kernel settings h
      → IsValid (sizes.total_pages) h.buddy ls
      → AreValid verbs config h.out
      → page.anon_vma ≡ some avcs
      → (is_eligible verbs kernel settings page && rmap_counter avcs == 1) ≡ true
      → cover ls j ≡ 1
      → page.is_huge ≡ false
      → ((e : ℕ) → place_of swapops e ≢ disk → e ≢ 0)
      → ((e : ℕ) → (radix.insert (h.cache.tree (space e)) e p).1 ≡ pos 0)
      → (h' : Host A M T K) × (add_to_swap verbs kernel settings h page (pos 0) p a ≡ some (h', 1))
        × (h'.devices ≡ h.devices)
  unfolding add_to_swap
  add_to_swap_succeeds h ls page avcs p a j fit v w e t free small some_entry fits =
      let c = choose-PoolChoice verbs kernel settings h ls page avcs a j fit v e t free in
      let done = choose verbs kernel settings h page a in
      let cache =
        same_cache h ls page a done (choose-Chosen verbs kernel settings h ls page a fit v w) in
      let g : Host A M T K = record done.0 { swap_to_comex = suc (done.0).swap_to_comex } in
      let out = enter_cache verbs kernel settings g page (pos 0) p c.entry in
      let not_zero : (c.entry == 0) ≡ false =
        ground (arith, some_entry c.entry (λ d. local-not_disk c.page_no (sym c.place ∙ d))) in
      let ends =
        enter_cache_succeeds g page p c.entry not_zero small
          (ap (λ x. (radix.insert (x.tree (space c.entry)) c.entry p).1) cache ∙ fits c.entry) in
      (
        out.0,
        rw (c.chose, add_to_swap) (ap (λ n. some (out.0, n)) ends.0),
        ends.1 ∙ choose-devices h ls page avcs a e t,
      )
    where
      local-not_disk : (q : ℕ) → local q ≡ disk → ⊥
      local-not_disk q e = cc
