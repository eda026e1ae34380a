-- ===== src/Start/Refs.antt =====
-- What krping_doit and krping_write_proc leave.
use comex.Base.Errno.{eintr, enomem, efault, enodev}
use comex.Base.{
  ℕ, zero, suc, ◌+◌, ◌<◌, ◌≡◌, inl, inr, Bool, true, false, Bool-cases, Option-cases, none, some,
  ◌==◌, arith,
}
use comex.Base.Int.{negsuc}
use comex.Start.{
  Left, Outcome, returned, running, Allocations, create_ids, create_cbs, doit, Written, written,
  before_buffer, waits,
}

-- How krping_doit ends: the threads run, all allocations having succeeded; or it returns an error, for
-- want of the memory for the pool, of a control block or of an id, and leaves what it had before that.
pub data Ended (a : Allocations) (total : ℕ) : Outcome → Type 0 where
  all_run :
      a.bigspace ≡ true
      → ((i : ℕ) → i < total → (a.cb i ≡ true) × (a.create_id i ≡ none))
      → Ended a total running
  no_pool :
      a.bigspace ≡ false
      → Ended a total (returned enomem (record { pages = false; cbs = 0; ids = 0 }))
  no_cb :
      (i : ℕ)
      → i < total
      → a.cb i ≡ false
      → Ended a total (returned enomem (record { pages = true; cbs = i; ids = 0 }))
  no_id :
      (i e : ℕ)
      → i < total
      → a.create_id i ≡ some e
      → Ended a total (returned (negsuc e) (record { pages = true; cbs = 0; ids = i }))

create_ids-Ended :
    (a : Allocations) (total n i : ℕ)
    → i + n ≡ total
    → a.bigspace ≡ true
    → ((j : ℕ) → j < total → a.cb j ≡ true)
    → ((j : ℕ) → j < i → a.create_id j ≡ none)
    → Ended a total (create_ids a n i)
unfolding create_ids
create_ids-Ended a total zero i e b c before =
    all_run b (λ j l. (c j l, before j (omega (arith, e, l))))
create_ids-Ended a total (suc n) i e b c before = elim (Option-cases (a.create_id i)) [
  | inr f ↦ rw (f.1, create_ids) (no_id i f.0 (omega (arith, e)) f.1)
  | inl m ↦
      rw (m, create_ids)
        (create_ids-Ended a total n (i + 1) (omega (arith, e)) b c (λ j l. so_far m j l))
]
  where
    so_far : a.create_id i ≡ none → (j : ℕ) → j < i + 1 → a.create_id j ≡ none
    so_far m j l = elim (Bool-cases (j == i)) [
      | inl t ↦ let at : j ≡ i = ground arith in rw at m
      | inr f ↦ before j (ground (arith, l))
    ]

create_cbs-Ended :
    (a : Allocations) (total n i : ℕ)
    → i + n ≡ total
    → a.bigspace ≡ true
    → ((j : ℕ) → j < i → a.cb j ≡ true)
    → Ended a total (create_cbs a total n i)
unfolding create_cbs
create_cbs-Ended a total zero i e b before =
    create_ids-Ended a total total 0 (omega arith) b (λ j l. before j (omega (arith, e, l)))
      (λ j l. absurd (omega (arith, l)))
create_cbs-Ended a total (suc n) i e b before = elim (Bool-cases (a.cb i)) [
  | inr f ↦ rw f (no_cb i (omega (arith, e)) f)
  | inl t ↦ rw t (create_cbs-Ended a total n (i + 1) (omega (arith, e)) b (λ j l. so_far t j l))
]
  where
    so_far : a.cb i ≡ true → (j : ℕ) → j < i + 1 → a.cb j ≡ true
    so_far t j l = elim (Bool-cases (j == i)) [
      | inl y ↦ let at : j ≡ i = ground arith in rw at t
      | inr f ↦ before j (ground (arith, l))
    ]

-- krping_doit ends in one of these ways.
pub doit-Ended : (a : Allocations) (total : ℕ) → Ended a total (doit a total)
unfolding doit
doit-Ended a total = elim (Bool-cases a.bigspace) [
  | inr f ↦ simp f (no_pool f)
  | inl t ↦
      simp t (create_cbs-Ended a total total 0 (omega arith) t (λ j l. absurd (omega (arith, l))))
]

-- How a write to /proc/krping ends. The reference to the module is kept where kmalloc or the copying
-- of the text fails, and the buffer where the copying fails.
pub data Failed (module_get kmalloc copied signalled : Bool) (count : ℕ) (a : Allocations)
    (total : ℕ) : Written → Type 0 where
  no_module :
      module_get ≡ false
      → Failed module_get kmalloc copied signalled count a total (written enodev 0 false)
  no_memory :
      module_get ≡ true
      → kmalloc ≡ false
      → Failed module_get kmalloc copied signalled count a total (written enomem 1 false)
  not_copied :
      module_get ≡ true
      → kmalloc ≡ true
      → copied ≡ false
      → Failed module_get kmalloc copied signalled count a total (written efault 1 true)
  no_text :
      module_get ≡ true
      → kmalloc ≡ true
      → copied ≡ true
      → count ≡ 0
      → Failed module_get kmalloc copied signalled count a total before_buffer
  not_started :
      (e : ℕ) (left : Left)
      → module_get ≡ true
      → kmalloc ≡ true
      → copied ≡ true
      → 0 < count
      → Ended a total (returned (negsuc e) left)
      → Failed module_get kmalloc copied signalled count a total (written (negsuc e) 0 false)
  interrupted :
      module_get ≡ true
      → kmalloc ≡ true
      → copied ≡ true
      → 0 < count
      → Ended a total running
      → signalled ≡ true
      → Failed module_get kmalloc copied signalled count a total (written eintr 0 false)
  does_not_return :
      module_get ≡ true
      → kmalloc ≡ true
      → copied ≡ true
      → 0 < count
      → Ended a total running
      → signalled ≡ false
      → Failed module_get kmalloc copied signalled count a total waits
