-- ===== src/Outgoing/Queue.antt =====
-- The page numbers that go out come from the queue of the node that they go to.
use mathlib.Core.Path.{subst}
use native.Mathlib.Nat.{mod-lt}
use comex.Base.{
  ℕ, zero, suc, ◌+◌, ◌*◌, ◌<◌, ◌≡◌, ◌≢◌, refl, sym, ap, ◌∙◌, inl, inr, Bool, true, false, ◌&&◌,
  Bool-cases, List, ◌∷◌, ◌==◌, ==_iff, if◌then◌else◌, update, update_self, update_ne, arith,
}
use comex.Base.Int.{ℤ, pos, minus_one, ◌==ℤ◌, ltb_ℤ, leb_ℤ}
use comex.FreeGroup.{FreeGroup}
use comex.FreeGroup.Fifo.{IsValid, pages, freelist_getpage-dequeues}
use comex.WriteOut.{Ring, Verbs}
use comex.Outgoing.{
  Out, Round, gives_up, goes_on, moved, broken, Destination, sent_to, nowhere, undefined, Config,
  ask_for_more, flush_full_tail, move_page, try_node, try_nodes, comex_hash, move_to_remote,
}

ask_for_more-IsValid :
    (threshold : ℤ) (g : FreeGroup)
    → IsValid g
    → IsValid (ask_for_more threshold g).0
      × ((ask_for_more threshold g).0.free_group ≡ g.free_group)
unfolding ask_for_more
ask_for_more-IsValid threshold g v = elim (Bool-cases (leb_ℤ g.total_page threshold)) [
  | inr f ↦ rw f (v, refl)
  | inl t ↦ elim (Bool-cases (g.back_off == 0)) [
    | inl z ↦ rw (t, z) (record { runs = v.runs; counted = v.counted; unlocked = v.unlocked }, refl)
    | inr z ↦ rw (t, z) (record { runs = v.runs; counted = v.counted; unlocked = v.unlocked }, refl)
  ]
]

otherwise {ℓ} : {X : Type ℓ} (b : Bool) (x y : X) → b ≡ false → (if b then x else y) ≡ y
otherwise b x y e = rw e refl

module _ {ℓ κ} {A : Type ℓ} {M : Type κ} (verbs : Verbs A M) (k : Config) where
  -- The numbers of the pages that another node has lent and that are not in use.
  abbrev pub queue : Out A M → ℕ → List ℕ
  queue s n = pages (s.free_group n).free_group

  abbrev pub AreValid : Out A M → Type 0
  AreValid s = (n : ℕ) → IsValid (s.free_group n)

  -- What a round does to the queues.
  data Tried (s : Out A M) (dest : ℕ) : Round A M → Type (ℓ ⊔ κ) where
    same :
        (s' : Out A M)
        → AreValid s'
        → ((n : ℕ) → queue s' n ≡ queue s n)
        → Tried s dest (goes_on s')
    took :
        (p : ℕ) (s' : Out A M)
        → AreValid s'
        → queue s dest ≡ p ∷ queue s' dest
        → ((n : ℕ) → n ≢ dest → queue s' n ≡ queue s n)
        → Tried s dest (moved p s')

  put_group :
      (f : ℕ → FreeGroup) (dest : ℕ) (g : FreeGroup)
      → ((n : ℕ) → IsValid (f n))
      → IsValid g
      → (n : ℕ) → IsValid (update f dest g n)
  put_group f dest g v w n = elim (Bool-cases (n == dest)) [
    | inl t ↦ rw ((==_iff n dest).0 t, update_self f dest g) w
    | inr d ↦ rw (update_ne f dest g n (λ e. ground arith)) (v n)
  ]

  put_group-same :
      (f : ℕ → FreeGroup) (dest : ℕ) (g : FreeGroup)
      → g.free_group ≡ (f dest).free_group
      → (n : ℕ) → pages (update f dest g n).free_group ≡ pages (f n).free_group
  put_group-same f dest g e n = elim (Bool-cases (n == dest)) [
    | inl t ↦ rw ((==_iff n dest).0 t, update_self f dest g) (ap pages e)
    | inr d ↦ rw (update_ne f dest g n (λ e. ground arith)) refl
  ]

  move_page-Tried :
      (s s' : Out A M) (dest : ℕ) (g : FreeGroup) (ring : M × Ring A) (a : A)
      → AreValid s
      → s'.free_group ≡ s.free_group
      → IsValid g
      → g.free_group ≡ (s.free_group dest).free_group
      → ltb_ℤ (pos 0) g.total_page ≡ true
      → Tried s dest (move_page verbs k s' dest g ring a)
  unfolding move_page
  move_page-Tried s s' dest g ring a v e w f h =
      let d = freelist_getpage-dequeues g w h in
      rw (d.returns, move_page)
        (took d.page_no _ (rw e (put_group s.free_group dest d.rest v d.valid))
          (ap pages (sym f)
            ∙ d.first
            ∙ ap (λ x. d.page_no ∷ pages x.free_group)
                (sym (update_self s'.free_group dest d.rest)))
          (λ n m.
            ap (λ x. pages x.free_group)
              (update_ne s'.free_group dest d.rest n m ∙ ap (λ u. u n) e)))

  try_node-Tried :
      (s : Out A M) (dest : ℕ) (a : A) → AreValid s → Tried s dest (try_node verbs k s dest a)
  unfolding try_node
  try_node-Tried s dest a v =
      let asked = ask_for_more-IsValid k.threshold (s.free_group dest) (v dest) in
      let g = (ask_for_more k.threshold (s.free_group dest)).0 in
      let ring = flush_full_tail verbs k.total_write_out (s.ring dest) in
      let test =
        ltb_ℤ (pos 0) g.total_page && (((ring.1).buff (ring.1).tail).status ==ℤ minus_one) in
      subst (Tried s dest) (sym (otherwise _ _ _ (v dest).unlocked)) (elim (Bool-cases test) [
        | inl t ↦ rw t (move_page-Tried s _ dest g ring a v refl asked.0 asked.1 (ground arith))
        | inr f ↦ rw f (
            same _ (put_group s.free_group dest g v asked.0)
              (put_group-same s.free_group dest g asked.1))
      ])

  comex_hash_below : (n seed node_id : ℕ) → 0 < n → comex_hash n seed node_id < n
  unfolding comex_hash
  comex_hash_below n seed node_id h = mod-lt (seed * node_id + 1) h

  -- What a call does to the queues.
  pub data Sent (s : Out A M) : Out A M × Destination → Type (ℓ ⊔ κ) where
    nothing_sent :
        (s' : Out A M) → AreValid s' → ((n : ℕ) → queue s' n ≡ queue s n) → Sent s (s', nowhere)
    page_sent :
        (n p : ℕ) (s' : Out A M)
        → n < k.n_mem_nodes
        → AreValid s'
        → queue s n ≡ p ∷ queue s' n
        → ((m : ℕ) → m ≢ n → queue s' m ≡ queue s m)
        → Sent s (s', sent_to n p)

  try_nodes-Sent :
      (rounds : ℕ) (s : Out A M) (dest : ℕ) (a : A)
      → dest < k.n_mem_nodes
      → AreValid s
      → Sent s (try_nodes verbs k rounds s dest a)
  unfolding try_nodes
  try_nodes-Sent zero s dest a h v = nothing_sent s v (λ n. refl)
  try_nodes-Sent (suc rounds) s dest a h v = by-cases _ (try_node-Tried s dest a v) (λ s' v'.
      try_nodes-Sent rounds s' (comex_hash k.n_mem_nodes dest k.node_id) a
        (comex_hash_below k.n_mem_nodes dest k.node_id (omega arith)) v')
    where
      onwards :
          (s' : Out A M)
          → ((n : ℕ) → queue s' n ≡ queue s n)
          → (out : Out A M × Destination) → Sent s' out
          → Sent s out
      onwards s' e out (nothing_sent t w f) = nothing_sent t w (λ n. f n ∙ e n)
      onwards s' e out (page_sent n p t b w f g) =
          page_sent n p t b w (sym (e n) ∙ f) (λ m d. g m d ∙ e m)

      by-cases :
          (t : Round A M)
          → Tried s dest t
          → ((s' : Out A M)
              → AreValid s'
              → Sent s' (try_nodes verbs k rounds s' (comex_hash k.n_mem_nodes dest k.node_id) a))
          → Sent s (elim t [
            | gives_up s' ↦ (s', nowhere)
            | moved page_no s' ↦ (s', sent_to dest page_no)
            | broken ↦ (s, undefined)
            | goes_on s' ↦ try_nodes verbs k rounds s' (comex_hash k.n_mem_nodes dest k.node_id) a
          ])
      by-cases t (same s' v' e) ih = onwards s' e _ (ih s' v')
      by-cases t (took p s' v' e f) ih = page_sent dest p s' h v' e f

  no_nodes :
      (s : Out A M) (dest : ℕ) (a : A)
      → AreValid s
      → (n : ℕ) → n ≡ 0
      → Sent s (try_nodes verbs k n s dest a)
  unfolding try_nodes
  no_nodes s dest a v n e = rw e (nothing_sent s v (λ n. refl))

  -- With valid groups COMEX_move_to_Remote never goes on with an empty list. If it returns 1, the page
  -- number that it returns was the first in the queue of that node, one of the nodes that have memory,
  -- and has left it; if it returns -1, and for every other node, the queues are as before. The groups
  -- stay valid.
  pub move_to_remote-Sent :
      (s : Out A M) (pid : ℕ) (a : A) → AreValid s → Sent s (move_to_remote verbs k s pid a)
  unfolding move_to_remote
  move_to_remote-Sent s pid a v = by-nodes k.n_mem_nodes refl
    where
      start : ℕ
      start = comex_hash k.n_mem_nodes pid k.node_id

      by-nodes : (n : ℕ) → k.n_mem_nodes ≡ n → Sent s (try_nodes verbs k k.n_mem_nodes s start a)
      by-nodes zero e = no_nodes s start a v k.n_mem_nodes e
      by-nodes (suc n) e =
          try_nodes-Sent k.n_mem_nodes s start a
            (comex_hash_below k.n_mem_nodes pid k.node_id (omega (arith, e))) v
