-- ===== src/Connection/Setup.antt =====
-- What krping_setup_qp of `krpingTrimmed/krping.c` allocates, and what it leaves when it fails.
use comex.Base.{◌≡◌, ◌≢◌, refl, inl, inr, Bool, true, false, not, Bool-cases, if◌then◌else◌, arith}
use comex.Base.Int.{ℤ, pos, ◌==ℤ◌, ==ℤ_iff}

-- A pointer of a krping_cb: NULL, an error code that is stored as a pointer, a resource, or the
-- address of a resource that has been given back. No function sets a pointer to NULL again.
pub data Ptr : Type 0 where
  is_null is_err live dangling : Ptr

unfoldable pub is_live : Ptr → Bool
is_live is_null = false
is_live is_err = false
is_live live = true
is_live dangling = false

-- What a call of the verbs library that returns 0 for success leaves in the pointer
pub made : ℤ → Ptr
made err = if err ==ℤ pos 0 then live else is_err

-- The protection domain, the two completion queues and the queue pair of a connection
pub record Resources : Type 0 where
  pub pd : Ptr
  pub cq_recv : Ptr
  pub cq_send : Ptr
  pub qp : Ptr

-- Which of them are there
pub record Held : Type 0 where
  pub pd : Bool
  pub cq_recv : Bool
  pub cq_send : Bool
  pub qp : Bool

unfoldable pub held : Resources → Held
held r = record {
  pd = is_live r.pd;
  cq_recv = is_live r.cq_recv;
  cq_send = is_live r.cq_send;
  qp = is_live r.qp;
}

-- What the calls of the verbs library return, 0 for success: ib_alloc_pd, the two calls of
-- ib_create_cq, the two of req_notify_cq, and krping_create_qp
pub record Answers : Type 0 where
  pub alloc_pd : ℤ
  pub create_recv : ℤ
  pub create_send : ℤ
  pub notify_send : ℤ
  pub notify_recv : ℤ
  pub create_qp : ℤ

abbrev pub nothing : Resources
nothing = record { pd = is_null; cq_recv = is_null; cq_send = is_null; qp = is_null }

abbrev pub no_resource : Held
no_resource = record { pd = false; cq_recv = false; cq_send = false; qp = false }

abbrev not_ok : ℤ → Bool
not_ok err = not (err ==ℤ pos 0)

-- The labels err1, err2 and err3
pub err1 : Resources → Resources
err1 r = record r { pd = dangling }

pub err2 : Resources → Resources
err2 r = err1 (record r { cq_send = dangling })

pub err3 : Resources → Resources
err3 r = err2 (record r { cq_recv = dangling })

pub setup_qp : Answers → Resources × ℤ
setup_qp a =
    let created : Resources = record {
      pd = live;
      cq_recv = made a.create_recv;
      cq_send = made a.create_send;
      qp = is_null;
    } in
    if not_ok a.alloc_pd
    then (record nothing { pd = is_err }, a.alloc_pd)
    else if not_ok a.create_send
    then (err1 created, a.create_send)
    else if not_ok a.create_recv
    then (err1 created, a.create_recv)
    else if not_ok a.notify_send
    then (err2 created, a.notify_send)
    else if not_ok a.notify_recv
    then (err3 created, a.notify_recv)
    else if not_ok a.create_qp
    then (err3 created, a.create_qp)
    else (record created { qp = live }, pos 0)

-- How the set-up ends: with everything and 0 if all calls return 0; else with the code of the first
-- call that fails, in the order in which the code looks at them, and with what the labels leave.
pub data SetUp (a : Answers) (out : Resources × ℤ) : Type 0 where
  ready :
      a.alloc_pd ≡ pos 0
      → a.create_send ≡ pos 0
      → a.create_recv ≡ pos 0
      → a.notify_send ≡ pos 0
      → a.notify_recv ≡ pos 0
      → a.create_qp ≡ pos 0
      → out ≡ (record { pd = live; cq_recv = live; cq_send = live; qp = live }, pos 0)
      → SetUp a out
  no_pd : a.alloc_pd ≢ pos 0 → out.1 ≡ a.alloc_pd → held out.0 ≡ no_resource → SetUp a out
  no_cq_send :
      a.alloc_pd ≡ pos 0
      → a.create_send ≢ pos 0
      → out.1 ≡ a.create_send
      → held out.0 ≡ record no_resource { cq_recv = a.create_recv ==ℤ pos 0 }
      → SetUp a out
  no_cq_recv :
      a.alloc_pd ≡ pos 0
      → a.create_send ≡ pos 0
      → a.create_recv ≢ pos 0
      → out.1 ≡ a.create_recv
      → held out.0 ≡ record no_resource { cq_send = true }
      → SetUp a out
  no_notice_send :
      a.alloc_pd ≡ pos 0
      → a.create_send ≡ pos 0
      → a.create_recv ≡ pos 0
      → a.notify_send ≢ pos 0
      → out.1 ≡ a.notify_send
      → held out.0 ≡ record no_resource { cq_recv = true }
      → SetUp a out
  no_notice_recv :
      a.alloc_pd ≡ pos 0
      → a.create_send ≡ pos 0
      → a.create_recv ≡ pos 0
      → a.notify_send ≡ pos 0
      → a.notify_recv ≢ pos 0
      → out.1 ≡ a.notify_recv
      → held out.0 ≡ no_resource
      → SetUp a out
  no_qp :
      a.alloc_pd ≡ pos 0
      → a.create_send ≡ pos 0
      → a.create_recv ≡ pos 0
      → a.notify_send ≡ pos 0
      → a.notify_recv ≡ pos 0
      → a.create_qp ≢ pos 0
      → out.1 ≡ a.create_qp
      → held out.0 ≡ no_resource
      → SetUp a out

ok : (err : ℤ) → (err ==ℤ pos 0) ≡ true → err ≡ pos 0
ok err t = (==ℤ_iff err (pos 0)).0 t

bad : (err : ℤ) → (err ==ℤ pos 0) ≡ false → err ≢ pos 0
bad err f e = ground (arith, f, (==ℤ_iff err (pos 0)).1 e)

-- krping_setup_qp returns 0 with all four resources if every call returns 0. Else it returns the code
-- of the call that fails first, where the queue for sending counts before the one for
-- receiving, without a protection domain and a queue pair. It then leaves no completion queue, except: the one for
-- receiving, if it could be made, where the other one could not be made or notified; and the one for
-- sending where the other one could not be made.
pub setup_qp-SetUp : (a : Answers) → SetUp a (setup_qp a)
unfolding setup_qp err1 err2 err3 made held is_live
setup_qp-SetUp a = elim (Bool-cases (a.alloc_pd ==ℤ pos 0)) [
  | inr f ↦ simp f (no_pd (bad _ f) refl refl)
  | inl p ↦ elim (Bool-cases (a.create_send ==ℤ pos 0)) [
    | inr f ↦ elim (Bool-cases (a.create_recv ==ℤ pos 0)) [
      | inl r ↦ simp (p, f, r) (no_cq_send (ok _ p) (bad _ f) refl (simp r refl))
      | inr r ↦ simp (p, f, r) (no_cq_send (ok _ p) (bad _ f) refl (simp r refl))
    ]
    | inl s ↦ elim (Bool-cases (a.create_recv ==ℤ pos 0)) [
      | inr f ↦ simp (p, s, f) (no_cq_recv (ok _ p) (ok _ s) (bad _ f) refl refl)
      | inl r ↦ elim (Bool-cases (a.notify_send ==ℤ pos 0)) [
        | inr f ↦ simp (p, s, r, f) (no_notice_send (ok _ p) (ok _ s) (ok _ r) (bad _ f) refl refl)
        | inl n ↦ elim (Bool-cases (a.notify_recv ==ℤ pos 0)) [
          | inr f ↦
              simp (p, s, r, n, f)
                (no_notice_recv (ok _ p) (ok _ s) (ok _ r) (ok _ n) (bad _ f) refl refl)
          | inl m ↦ elim (Bool-cases (a.create_qp ==ℤ pos 0)) [
            | inr f ↦
                simp (p, s, r, n, m, f)
                  (no_qp (ok _ p) (ok _ s) (ok _ r) (ok _ n) (ok _ m) (bad _ f) refl refl)
            | inl q ↦
                simp (p, s, r, n, m, q)
                  (ready (ok _ p) (ok _ s) (ok _ r) (ok _ n) (ok _ m) (ok _ q) refl)
          ]
        ]
      ]
    ]
  ]
]
