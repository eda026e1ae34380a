-- ===== src/Swap/Out/Chosen.antt =====
-- The entry that add_to_swap chooses leads back to the page's contents.
use comex.Base.{
  ℕ, ◌+◌, ◌*◌, ◌/◌, ◌%◌, ◌≤◌, ◌<◌, ◌≡◌, ◌≢◌, refl, sym, ap, ◌∙◌, inl, inr, true, false, ◌&&◌, ◌⊎◌,
  Bool-cases, ◌∷◌, Option, none, some, All, ◌==◌, ==_iff, if◌then◌else◌, arith,
}
use comex.Base.Int.{ℤ, pos, pos_part, ◌==ℤ◌, ==ℤ_iff}
use comex.Buddy.{Buddy}
use comex.Buddy.Blocks.{Lists, cover, cover-empty}
use comex.Buddy.Valid.{IsValid}
use comex.Buddy.Alloc.{Taken}
use comex.Local.{read_from_local}
use comex.Local.Store.{Stored, stored, full, move_to_comex-Stored}
use comex.Outgoing.{Out, Destination, sent_to, nowhere, undefined, move_to_remote}
use comex.Outgoing.Queue.{queue, AreValid, Sent, nothing_sent, page_sent, move_to_remote-Sent}
use comex.Rmap.{Task, AnonVma, get_task_struct, get_page_pid, rmap_counter}
use comex.Rmap.Owner.{owner-pid}
use comex.Swap.{Swapops, local_entry, remote_entry, local, remote, place_of}
use comex.Swap.Out.{
  Candidate, Host, Kernel, Settings, Choice, chosen, not_chosen, crash, is_ours, is_eligible,
  choose_remote, choose_pool, choose,
}
use comex.WriteOut.{Verbs}

-- An entry leads back to what it was made from.
pub place-local :
    (ops : Swapops) (p : ℕ) → p < ops.offset_bound → place_of ops (local_entry ops p) ≡ local p
unfolding place_of local_entry
place-local ops p h =
    rw (ops.swp_type_lem 9 p (omega arith) h, ops.swp_offset_lem 9 p (omega arith) h) refl

pub place-remote :
    (ops : Swapops) (n p : ℕ)
    → n < 1024
    → n + p * 1024 < ops.offset_bound
    → place_of ops (remote_entry ops n p) ≡ remote n p
unfolding place_of remote_entry
place-remote ops n p h b =
    let node : (n + p * 1024) % 1024 ≡ n = omega arith in
    let page : (n + p * 1024) / 1024 ≡ p = omega arith in
    rw
      (
        ops.swp_type_lem 8 (n + p * 1024) (omega arith) b,
        ops.swp_offset_lem 8 (n + p * 1024) (omega arith) b,
        node,
        page,
      )
      refl

module _ {ℓ κ μ ν} {A : Type ℓ} {M : Type κ} {T : Type μ} {K : Type ν} (verbs : Verbs A M)
    (kernel : Kernel T K) (settings : Settings) where
  open settings use {sizes, config, comex_ready, proc_name}
  open kernel use {swapops, strcmp}

  -- What add_to_swap asks of a page before it takes it: COMEX is ready, the page is mapped once and has
  -- two references, the process that owns it has the chosen name, and its anon_vma is counted once.
  pub record WantsPool (page : Candidate) : Type 0 where
    pub is_ready : comex_ready ≡ true
    pub mapped_once : page.mapcount ≡ pos 1
    pub two_references : page.count ≡ pos 2
    pub owner : Task
    pub owned : get_task_struct page.anon_vma ≡ some owner
    pub named : strcmp owner.comm proc_name ≡ pos 0
    pub avcs : AnonVma
    pub anonymous : page.anon_vma ≡ some avcs
    pub counted_once : rmap_counter avcs ≡ 1

  -- No page of the pool is free.
  abbrev pub IsFull : Lists → Type 0
  IsFull ls = (j : ℕ) → cover ls j ≡ 0

  -- COMEX_move_to_Remote finds no place for the page.
  pub record HasNoPlace (h : Host A M T K) (page : Candidate) (a : A) : Type 0 where
    pub pid : ℤ
    pub owner_pid : get_page_pid page.anon_vma ≡ some pid
    pub no_place : (move_to_remote verbs config h.out (pos_part pid) a).1 ≡ nowhere

  -- What the choice comes to, and when.
  pub data Chosen (h : Host A M T K) (ls : Lists) (page : Candidate) (a : A)
      : Host A M T K × Choice → Type (ℓ ⊔ κ ⊔ μ ⊔ ν) where
    in_pool :
        (p entry : ℕ) (h' : Host A M T K)
        → WantsPool page
        → place_of swapops entry ≡ local p
        → cover ls p ≡ 1
        → Taken (sizes.total_pages) ls 0 p (h'.buddy)
        → read_from_local sizes h'.memory (pos p) ≡ some a
        → ((q : ℕ)
            → q ≢ p
            → read_from_local sizes h'.memory (pos q) ≡ read_from_local sizes h.memory (pos q))
        → h'.out ≡ h.out
        → h'.cache ≡ h.cache
        → Chosen h ls page a (h', chosen entry)
    in_remote :
        (n p entry : ℕ) (h' : Host A M T K)
        → WantsPool page
        → IsFull ls
        → place_of swapops entry ≡ remote n p
        → AreValid verbs config h'.out
        → queue verbs config h.out n ≡ p ∷ queue verbs config h'.out n
        → ((m : ℕ) → m ≢ n → queue verbs config h'.out m ≡ queue verbs config h.out m)
        → h'.buddy ≡ h.buddy
        → h'.memory ≡ h.memory
        → h'.cache ≡ h.cache
        → Chosen h ls page a (h', chosen entry)
    on_disk :
        (h' : Host A M T K)
        → (¬ WantsPool page) ⊎ (IsFull ls × HasNoPlace h page a)
        → AreValid verbs config h'.out
        → ((m : ℕ) → queue verbs config h'.out m ≡ queue verbs config h.out m)
        → h'.buddy ≡ h.buddy
        → h'.memory ≡ h.memory
        → h'.cache ≡ h.cache
        → Chosen h ls page a (h', not_chosen)

  -- The sizes fit into an entry, and so do the numbers of the pages that are lent.
  pub record Fits (h : Host A M T K) : Type 0 where
    pub pool : sizes.total_pages ≤ swapops.offset_bound
    pub nodes : config.n_mem_nodes ≤ 1024
    pub lent :
        (n : ℕ) → All (λ p. 1023 + p * 1024 < swapops.offset_bound) (queue verbs config h.out n)

  choose_remote-Chosen :
      (h h' : Host A M T K) (ls : Lists) (page : Candidate) (pid : ℤ) (a : A)
      → get_page_pid page.anon_vma ≡ some pid
      → WantsPool page
      → IsFull ls
      → Fits h
      → AreValid verbs config h.out
      → h'.out ≡ h.out
      → h'.buddy ≡ h.buddy
      → h'.memory ≡ h.memory
      → h'.cache ≡ h.cache
      → Chosen h ls page a (choose_remote verbs kernel settings h' (pos_part pid) a)
  unfolding choose_remote
  choose_remote-Chosen h h' ls page pid a g wants empty fit v o b m c =
      rw o (by-cases _ refl (move_to_remote-Sent verbs config h.out (pos_part pid) a v))
    where
      by-cases :
          (t : Out A M × Destination)
          → move_to_remote verbs config h.out (pos_part pid) a ≡ t
          → Sent verbs config h.out t
          → Chosen h ls page a (elim t.1 [
            | sent_to n p ↦ (record h' { out = t.0 }, chosen (remote_entry swapops n p))
            | nowhere ↦ (record h' { out = t.0 }, not_chosen)
            | undefined ↦ (record h' { out = t.0 }, crash)
          ])
      by-cases t e (nothing_sent s w same) =
          let left : HasNoPlace h page a = record {
            pid = pid;
            owner_pid = g;
            no_place = ap (λ x. x.1) e;
          } in
          on_disk (record h' { out = s }) (inr (empty, left)) w same b m c
      by-cases t e (page_sent n p s l w first same) =
          let fits : 1023 + p * 1024 < swapops.offset_bound = (rw first at (fit.lent n)).0 in
          in_remote n p _ (record h' { out = s }) wants empty
            (place-remote swapops n p (omega (arith, fit.nodes)) (omega (arith, fit.nodes, fits))) w
            first same b m c

  choose_pool-Chosen :
      (h : Host A M T K) (ls : Lists) (page : Candidate) (pid : ℤ) (a : A)
      → get_page_pid page.anon_vma ≡ some pid
      → WantsPool page
      → Fits h
      → IsValid (sizes.total_pages) h.buddy ls
      → AreValid verbs config h.out
      → Chosen h ls page a (choose_pool verbs kernel settings h page a)
  unfolding choose_pool
  choose_pool-Chosen h ls page pid a g wants fit v w =
      by-cases _ (move_to_comex-Stored sizes v h.memory a) (get_page_pid page.anon_vma) g
    where
      by-cases :
          (t : Buddy × (ℕ → A) × Option ℕ)
          → Stored sizes h.buddy ls h.memory a t
          → (o : Option ℤ) → o ≡ some pid
          → Chosen h ls page a (elim t.2 [
            | some p ↦ (record h { buddy = t.0; memory = t.1 }, chosen (local_entry swapops p))
            | none ↦ elim o [
              | none ↦ (record h { buddy = t.0; memory = t.1 }, crash)
              | some pid ↦
                  choose_remote verbs kernel settings
                    (record h { buddy = t.0; memory = t.1 })
                    (pos_part pid)
                    a
            ]
          ])
      by-cases t (stored p r c taken same others) o e = rw r (
          in_pool p _ (record h { buddy = t.0; memory = t.1 }) wants
            (place-local swapops p (omega (arith, taken.within, fit.pool))) c taken same others refl
            refl)
      by-cases t (full r s e f) o d =
          rw (r, d)
            (choose_remote-Chosen h (record h { buddy = t.0; memory = t.1 }) ls page pid a g wants
              (λ j. cover-empty ls j f) fit w refl s e refl)

  -- An owner that passes the test is known.
  is_ours-known :
      (v : Option AnonVma)
      → is_ours verbs kernel settings (get_task_struct v) ≡ true
      → (t : Task) × (get_task_struct v ≡ some t)
  unfolding is_ours
  is_ours-known v e = by-cases (get_task_struct v) e
    where
      by-cases :
          (o : Option Task) → is_ours verbs kernel settings o ≡ true → (t : Task) × (o ≡ some t)
      by-cases none f = absurd (false-not_true f)
        where
          false-not_true : false ≡ true → ⊥
          false-not_true e = cc
      by-cases (some t) f = (t, refl)

  is_ours_named :
      (o : Option Task) (t : Task)
      → o ≡ some t
      → is_ours verbs kernel settings o ≡ (strcmp t.comm proc_name ==ℤ pos 0)
  unfolding is_ours
  is_ours_named o t e = rw e refl

  tests-WantsPool :
      (page : Candidate) (avcs : AnonVma)
      → page.anon_vma ≡ some avcs
      → (is_eligible verbs kernel settings page && rmap_counter avcs == 1) ≡ true
      → WantsPool page
  unfolding is_eligible
  tests-WantsPool page avcs e t =
      let known = is_ours-known page.anon_vma (ground (arith, t)) in
      record {
        is_ready = ground (arith, t);
        mapped_once = (==ℤ_iff _ _).0 (ground (arith, t));
        two_references = (==ℤ_iff _ _).0 (ground (arith, t));
        owner = known.0;
        owned = known.1;
        named = (==ℤ_iff _ _).0 (
            sym (is_ours_named (get_task_struct page.anon_vma) known.0 known.1)
            ∙ ground (arith, t));
        avcs = avcs;
        anonymous = e;
        counted_once = (==_iff _ _).0 (ground (arith, t));
      }

  WantsPool-tests :
      (page : Candidate) (avcs : AnonVma)
      → page.anon_vma ≡ some avcs
      → WantsPool page
      → (is_eligible verbs kernel settings page && rmap_counter avcs == 1) ≡ true
  unfolding is_eligible
  WantsPool-tests page avcs e w =
      let same : w.avcs ≡ avcs = some-inj w.avcs avcs (sym w.anonymous ∙ e) in
      let one : (rmap_counter avcs == 1) ≡ true =
        (==_iff _ _).1 (ap rmap_counter (sym same) ∙ w.counted_once) in
      let ours : is_ours verbs kernel settings (get_task_struct page.anon_vma) ≡ true =
        is_ours_named (get_task_struct page.anon_vma) w.owner w.owned ∙ (==ℤ_iff _ _).1 w.named in
      rw (ours, w.is_ready, (==ℤ_iff _ _).1 w.mapped_once, (==ℤ_iff _ _).1 w.two_references, one)
        refl
    where
      some-inj : (x y : AnonVma) → some x ≡ some y → x ≡ y
      some-inj x y e = cc

  true-not_false : true ≡ false → ⊥
  true-not_false e = cc

  no_vma : (page : Candidate) → page.anon_vma ≡ none → ¬ WantsPool page
  no_vma page e w = none-not_some (sym e ∙ w.anonymous)
    where
      none-not_some : none ≡ some w.avcs → ⊥
      none-not_some f = cc

  -- If the allocator and the groups of lent pages are valid and all numbers fit into entries, the
  -- choice of add_to_swap does not crash. A page that add_to_swap does not want gets no entry. For one
  -- that it wants, either the entry leads to a page of the pool that was free,
  -- which now holds the contents while the others keep theirs; or no page was
  -- free and the entry leads to the page that was the first in the queue of its node; or no page
  -- was free, COMEX_move_to_Remote finds no place, and no entry is chosen. Where it is not said otherwise the pool and the queues are as before.
  pub choose-Chosen :
      (h : Host A M T K) (ls : Lists) (page : Candidate) (a : A)
      → Fits h
      → IsValid (sizes.total_pages) h.buddy ls
      → AreValid verbs config h.out
      → Chosen h ls page a (choose verbs kernel settings h page a)
  unfolding choose is_eligible
  choose-Chosen h ls page a fit v w = by-vma page.anon_vma refl
    where
      by-vma :
          (o : Option AnonVma)
          → page.anon_vma ≡ o
          → Chosen h ls page a (elim o [
            | none ↦ (h, not_chosen)
            | some avcs ↦
                if is_eligible verbs kernel settings page && rmap_counter avcs == 1
                then choose_pool verbs kernel settings h page a
                else (h, not_chosen)
          ])
      by-vma none e = on_disk h (inl (no_vma page e)) w (λ m. refl) refl refl refl
      by-vma (some avcs) e =
          elim (Bool-cases (is_eligible verbs kernel settings page && rmap_counter avcs == 1)) [
            | inr f ↦
                let refused : ¬ WantsPool page =
                  λ x. true-not_false (sym (WantsPool-tests page avcs e x) ∙ f) in
                rw f (on_disk h (inl refused) w (λ m. refl) refl refl refl)
            | inl t ↦
                let known = is_ours-known page.anon_vma (ground arith) in
                rw t (
                  choose_pool-Chosen h ls page (pos (known.0).pid) a
                    (owner-pid page.anon_vma known.0 known.1) (tests-WantsPool page avcs e t) fit v
                    w)
          ]

      true-not_false : true ≡ false → ⊥
      true-not_false e = cc

  -- The choice of a page of the pool, and what it holds afterwards.
  pub record PoolChoice (ls : Lists) (a : A) (t : Host A M T K × Choice) : Type ℓ where
    pub page_no : ℕ
    pub entry : ℕ
    pub chose : t.1 ≡ chosen entry
    pub place : place_of swapops entry ≡ local page_no
    pub was_free : cover ls page_no ≡ 1
    pub taken : Taken (sizes.total_pages) ls 0 page_no (t.0).buddy
    pub back : read_from_local sizes (t.0).memory (pos page_no) ≡ some a

  pub choose-is_pool :
      (h : Host A M T K) (page : Candidate) (avcs : AnonVma) (a : A)
      → page.anon_vma ≡ some avcs
      → (is_eligible verbs kernel settings page && rmap_counter avcs == 1) ≡ true
      → choose verbs kernel settings h page a ≡ choose_pool verbs kernel settings h page a
  unfolding choose
  choose-is_pool h page avcs a e t = by-vma page.anon_vma e
    where
      by-vma :
          (o : Option AnonVma)
          → o ≡ some avcs
          → (elim o [
            | none ↦ (h, not_chosen)
            | some avcs ↦
                if is_eligible verbs kernel settings page && rmap_counter avcs == 1
                then choose_pool verbs kernel settings h page a
                else (h, not_chosen)
          ])
            ≡ choose_pool verbs kernel settings h page a
      by-vma o e = rw (e, t) refl

  -- An eligible page goes to the pool if a page is free.
  pub choose-PoolChoice :
      (h : Host A M T K) (ls : Lists) (page : Candidate) (avcs : AnonVma) (a : A) (j : ℕ)
      → Fits h
      → IsValid (sizes.total_pages) h.buddy ls
      → page.anon_vma ≡ some avcs
      → (is_eligible verbs kernel settings page && rmap_counter avcs == 1) ≡ true
      → cover ls j ≡ 1
      → PoolChoice ls a (choose verbs kernel settings h page a)
  unfolding choose_pool
  choose-PoolChoice h ls page avcs a j fit v e t free =
      rw (choose-is_pool h page avcs a e t)
        (by-cases _ (move_to_comex-Stored sizes v h.memory a) (get_page_pid page.anon_vma))
    where
      by-cases :
          (t : Buddy × (ℕ → A) × Option ℕ)
          → Stored sizes h.buddy ls h.memory a t
          → (o : Option ℤ)
          → PoolChoice ls a (elim t.2 [
            | some p ↦ (record h { buddy = t.0; memory = t.1 }, chosen (local_entry swapops p))
            | none ↦ elim o [
              | none ↦ (record h { buddy = t.0; memory = t.1 }, crash)
              | some pid ↦
                  choose_remote verbs kernel settings
                    (record h { buddy = t.0; memory = t.1 })
                    (pos_part pid)
                    a
            ]
          ])
      by-cases t (stored p r c taken same others) q = rw r (record {
        page_no = p;
        entry = local_entry swapops p;
        chose = refl;
        place = place-local swapops p (omega (arith, taken.within, fit.pool));
        was_free = c;
        taken = taken;
        back = same;
      })
      by-cases t (full r s e f) q = absurd (omega (arith, free, cover-empty ls j f))
