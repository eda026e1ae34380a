-- ===== src/Remote/Initial.antt =====
-- COMEX_init_Remote establishes the invariants of the arrays.
use comex.Base.{
  ℕ, zero, suc, ◌+◌, ◌≤◌, ◌<◌, ◌≡◌, refl, ap, ◌∙◌, inl, inr, Bool-cases, [], ◌==◌, ==_iff, update,
  update_self, update_ne, arith,
}
use comex.FreeBatch.{clean_free_struct}
use comex.FreeBatch.Conserve.{IsBatch, clean_free_struct-IsBatch}
use comex.FreeGroup.{FreeGroup}
use comex.FreeGroup.Fifo.{IsValid, pages}
use comex.Layout.{Sizes}
use comex.WriteOut.{Desc, no_page, Ring}
use comex.WriteOut.View.{Waits, IsUnique}
use comex.Remote.{Remote, for_each, init_group, init_pos, init_desc, init_write_out, init_remote}

for_each-out {ℓ} :
    {A : Type ℓ} (g : A → A) (n i : ℕ) (f : ℕ → A) (j : ℕ) → j < i → for_each g n i f j ≡ f j
unfolding for_each
for_each-out g zero i f j h = refl
for_each-out g (suc n) i f j h =
    for_each-out g n (i + 1) (update f i (g (f i))) j (omega arith)
    ∙ update_ne f i (g (f i)) j (λ e. omega arith)

for_each-in {ℓ} :
    {A : Type ℓ} (g : A → A) (n i : ℕ) (f : ℕ → A) (j : ℕ)
    → i ≤ j
    → j < i + n
    → for_each g n i f j ≡ g (f j)
unfolding for_each
for_each-in g zero i f j x y = absurd (omega arith)
for_each-in g (suc n) i f j x y = elim (Bool-cases (j == i)) [
  | inl t ↦
      let e : j ≡ i = (==_iff j i).0 t in
      rw e (
        for_each-out g n (i + 1) (update f i (g (f i))) i (omega arith) ∙ update_self f i (g (f i)))
  | inr d ↦
      for_each-in g n (i + 1) (update f i (g (f i))) j (ground arith) (omega arith)
      ∙ ap g (update_ne f i (g (f i)) j (λ e. ground arith))
]

-- What holds for a node: its group is valid and empty, its ring has no waiting slot and starts at 0,
-- and its array of pages to give back is well formed.
pub record IsInitial {ℓ} {A : Type ℓ} (total_write_out : ℕ) (s : Remote A) (n : ℕ) : Type 0 where
  pub group : IsValid (s.free_group n)
  pub no_pages : pages (s.free_group n).free_group ≡ []
  pub empty : (j : ℕ) → j < total_write_out → (s.ring n).buff j ≡ no_page
  pub head : (s.ring n).head ≡ 0
  pub tail : (s.ring n).tail ≡ 0
  pub unique : IsUnique total_write_out (s.ring n)
  pub batch : IsBatch (s.free_struct n)

no_page-not_waiting {ℓ} : {A : Type ℓ} (r : Ring A) (j p : ℕ) → r.buff j ≡ no_page → Waits r j p → ⊥
no_page-not_waiting r j p e w = ground (arith, ap (λ (d : Desc). d.status) e, w.status)

init_group-IsValid :
    (g : FreeGroup) → IsValid (init_group g) × (pages (init_group g).free_group ≡ [])
unfolding init_group
init_group-IsValid g = (record { runs = tt; counted = refl; unlocked = refl }, refl)

init_desc_lem : (d : Desc) → init_desc d ≡ no_page
unfolding init_desc
init_desc_lem d = refl

init_ring {ℓ} :
    {A : Type ℓ} (tw : ℕ) (r : Ring A)
    → let r' = init_write_out tw (init_pos r) in
      (r'.head ≡ 0) × (r'.tail ≡ 0) × ((j : ℕ) → j < tw → r'.buff j ≡ no_page)
unfolding init_write_out init_pos
init_ring tw r = (
  refl,
  refl,
  λ j h. for_each-in init_desc tw 0 r.buff j (omega arith) (omega arith) ∙ init_desc_lem (r.buff j),
)

-- After COMEX_init_Remote this holds for every node, and all read-in slots are empty.
pub init_remote-IsInitial {ℓ} :
    {A : Type ℓ} (z : Sizes) (s : Remote A)
    → ((n : ℕ) → n < z.total_nodes → IsInitial z.total_write_out (init_remote z s) n)
      × ((j : ℕ) → j < z.total_read_in → (init_remote z s).read_in.buff j ≡ no_page)
unfolding init_remote
init_remote-IsInitial {A} z s = (
  λ n h.
      let group =
        for_each-in init_group z.total_nodes 0 s.free_group n (omega arith) (omega arith) in
      let valid = init_group-IsValid (s.free_group n) in
      let ring =
        for_each-in (init_write_out z.total_write_out) z.total_nodes 0
          (for_each init_pos z.total_nodes 0 s.ring) n (omega arith) (omega arith)
        ∙ ap (init_write_out z.total_write_out)
            (for_each-in init_pos z.total_nodes 0 s.ring n (omega arith) (omega arith)) in
      let is = init_ring z.total_write_out (s.ring n) in
      let empty : (j : ℕ) → j < z.total_write_out → ((init_remote z s).ring n).buff j ≡ no_page =
        λ j l. ap (λ (r : Ring A). r.buff j) ring ∙ is.2 j l in
      record {
        group = rw group valid.0;
        no_pages = ap (λ (g : FreeGroup). pages g.free_group) group ∙ valid.1;
        empty = empty;
        head = ap (λ (r : Ring A). r.head) ring ∙ is.0;
        tail = ap (λ (r : Ring A). r.tail) ring ∙ is.1;
        unique = λ i j p x y v w.
            absurd (no_page-not_waiting ((init_remote z s).ring n) i p (empty i x) v);
        batch =
            rw
              (for_each-in (λ ss. clean_free_struct) z.total_nodes 0 s.free_struct n (omega arith)
                (omega arith))
              clean_free_struct-IsBatch;
      },
  λ j h.
      for_each-in init_desc z.total_read_in 0 s.read_in.buff j (omega arith) (omega arith)
      ∙ init_desc_lem (s.read_in.buff j),
)
