-- ===== src/FreeGroup/Fifo.antt =====
-- The list of lent pages is a queue of page numbers, and total_page is its length.
use comex.Base.{
  ℕ, zero, suc, ◌+◌, ◌-◌, ◌^◌, ◌≤◌, ◌≡◌, refl, sym, ap, ◌∙◌, inl, inr, Bool, true, false,
  Bool-cases, List, [], ◌∷◌, ◌++◌, Option, some, arith, length, length-append, All, All-append, ltb,
  leb,
}
use comex.Base.Bits.{pow_pos}
use comex.Base.Int.{ℤ, pos, negsuc, ltb_ℤ, ◌-ℤ◌, +ℤ-pos, -ℤ-one, ltb_ℤ-negsuc}
use comex.FreeGroup.{
  FreeRun, FreeGroup, add_run, slow_down, page_receive, advance, freelist_getpage,
}

-- n numbers from `start` on
abbrev pub range : (start n : ℕ) → List ℕ
range start zero = []
range start (suc n) = start ∷ range (start + 1) n

length-range : (start n : ℕ) → length (range start n) ≡ n
length-range start zero = refl
length-range start (suc n) = ap suc (length-range (start + 1) n)

-- The pages that a list of entries stands for, in order.
abbrev pub pages : List FreeRun → List ℕ
pages [] = []
pages (r ∷ rs) = range r.page_start (r.page_end + 1 - r.page_start) ++ pages rs

append_assoc : (xs ys zs : List ℕ) → (xs ++ ys) ++ zs ≡ xs ++ (ys ++ zs)
append_assoc [] ys zs = refl
append_assoc (x ∷ xs) ys zs = ap (◌∷◌ x) (append_assoc xs ys zs)

append_nil : (xs : List ℕ) → xs ++ [] ≡ xs
append_nil [] = refl
append_nil (x ∷ xs) = ap (◌∷◌ x) (append_nil xs)

pages-append : (rs ss : List FreeRun) → pages (rs ++ ss) ≡ pages rs ++ pages ss
pages-append [] ss = refl
pages-append (r ∷ rs) ss =
    ap (◌++◌ (range r.page_start (r.page_end + 1 - r.page_start))) (pages-append rs ss)
    ∙ sym (append_assoc _ (pages rs) (pages ss))

abbrev pub NonEmpty : FreeRun → Type 0
NonEmpty r = r.page_start ≤ r.page_end

pub record IsValid (g : FreeGroup) : Type 0 where
  pub runs : All NonEmpty g.free_group
  pub counted : g.total_page ≡ pos (length (pages g.free_group))
  pub unlocked : g.locked ≡ false

SameQueue : FreeGroup → FreeGroup → Type 0
SameQueue g g' =
    (g'.free_group ≡ g.free_group) × (g'.total_page ≡ g.total_page) × (g'.locked ≡ g.locked)

slow_down-SameQueue :
    (refill : ℕ) (g : FreeGroup) (n : ℤ) (s : ℕ) → SameQueue g (slow_down refill g n s)
unfolding slow_down SameQueue
slow_down-SameQueue refill g n s = elim (Bool-cases (leb (s + 2) refill)) [
  | inl t ↦ rw t (refl, refl, refl)
  | inr f ↦ elim (Bool-cases (ltb_ℤ n (pos 0))) [
    | inl t ↦ rw (f, t) (refl, refl, refl)
    | inr f' ↦ rw (f, f') (refl, refl, refl)
  ]
]

SameQueue-IsValid : (g g' : FreeGroup) → SameQueue g g' → IsValid g → IsValid g'
unfolding SameQueue
SameQueue-IsValid g g' e v = record {
  runs = rw e.0 v.runs;
  counted = rw (e.0, e.1) v.counted;
  unlocked = e.2 ∙ v.unlocked;
}

add_run-IsValid : (g : FreeGroup) (n s : ℕ) → IsValid g → IsValid (add_run g n s)
unfolding add_run
add_run-IsValid g n s v =
    let r : FreeRun = record { page_start = n; page_end = n + 2 ^ s - 1 } in
    record {
      runs = All-append NonEmpty g.free_group (r ∷ []) v.runs (omega (arith, pow_pos s), tt);
      counted =
          rw (pages-append g.free_group (r ∷ []), v.counted)
            (+ℤ-pos _ (2 ^ s)
              ∙ ap pos (
                  omega (
                    arith,
                    length-append (pages g.free_group) (pages (r ∷ [])),
                    length-append (range n (n + 2 ^ s - 1 + 1 - n)) [],
                    length-range n (n + 2 ^ s - 1 + 1 - n),
                    pow_pos s,
                  )));
      unlocked = v.unlocked;
    }

add_run-pages :
    (g : FreeGroup) (n s : ℕ)
    → pages (add_run g n s).free_group ≡ pages g.free_group ++ range n (2 ^ s)
unfolding add_run
add_run-pages g n s =
    let e : n + 2 ^ s - 1 + 1 - n ≡ 2 ^ s = omega (arith, pow_pos s) in
    pages-append g.free_group _ ∙ ap (◌++◌ (pages g.free_group)) (append_nil _ ∙ ap (range n) e)

-- From a valid group and with memory at hand, the reply of another node that lends the pages from `page_no` on puts these
-- 2 ^ group_size pages behind those in the queue, and the group stays valid, with its mutex free.
pub page_receive-enqueues :
    (refill : ℕ) (g : FreeGroup) (page_no group_size : ℕ)
    → IsValid g
    → IsValid (page_receive refill true g (pos page_no) group_size)
      × (pages (page_receive refill true g (pos page_no) group_size).free_group
          ≡ pages g.free_group ++ range page_no (2 ^ group_size))
unfolding page_receive SameQueue
page_receive-enqueues refill g n s v =
    let g' = add_run g n s in
    let e = slow_down-SameQueue refill g' (pos n) s in
    (SameQueue-IsValid g' _ e (add_run-IsValid g n s v), ap pages e.0 ∙ add_run-pages g n s)

-- A reply without pages leaves the queue of a valid group as it is and the mutex free, and makes the node wait.
pub page_receive-none :
    (refill : ℕ) (memory : Bool) (g : FreeGroup) (k group_size : ℕ)
    → IsValid g
    → IsValid (page_receive refill memory g (negsuc k) group_size)
      × (pages (page_receive refill memory g (negsuc k) group_size).free_group ≡ pages g.free_group)
      × ((page_receive refill memory g (negsuc k) group_size).back_off ≡ 100000)
unfolding page_receive SameQueue slow_down
page_receive-none refill memory g k s v =
    let e = slow_down-SameQueue refill g (negsuc k) s in
    (SameQueue-IsValid g _ e v, ap pages e.0, waits)
  where
    waits : (slow_down refill g (negsuc k) s).back_off ≡ 100000
    waits = elim (Bool-cases (leb (s + 2) refill)) [
      | inl t ↦ rw t refl
      | inr f ↦ rw (f, ltb_ℤ-negsuc k 0) refl
    ]

-- What a call of COMEX_freelist_getpage does to a queue that is not empty.
pub record Dequeued (g : FreeGroup) (out : Option (ℕ × FreeGroup)) : Type 0 where
  pub page_no : ℕ
  pub rest : FreeGroup
  pub returns : out ≡ some (page_no, rest)
  pub first : pages g.free_group ≡ page_no ∷ pages rest.free_group
  pub valid : IsValid rest

advance-pages :
    (r : FreeRun) (rs : List FreeRun)
    → NonEmpty r
    → All NonEmpty rs
    → All NonEmpty (advance r rs) × (pages (r ∷ rs) ≡ r.page_start ∷ pages (advance r rs))
unfolding advance
advance-pages r rs h hs = elim (Bool-cases (ltb r.page_end (r.page_start + 1))) [
  | inl t ↦ let e : r.page_end + 1 - r.page_start ≡ 1 = ground arith in rw (t, e) (hs, refl)
  | inr f ↦
      let e : r.page_end + 1 - r.page_start ≡ suc (r.page_end + 1 - (r.page_start + 1)) =
        ground arith in
      rw (f, e) ((ground arith, hs), refl)
]

-- From a valid group that counts at least one page, COMEX_freelist_getpage returns the page that has
-- been in the queue for longest and leaves the others in their order, in a valid group again.
pub freelist_getpage-dequeues :
    (g : FreeGroup)
    → IsValid g
    → ltb_ℤ (pos 0) g.total_page ≡ true
    → Dequeued g (freelist_getpage g)
unfolding freelist_getpage
freelist_getpage-dequeues g v h = by-cases g.free_group refl
  where
    by-cases : (rs : List FreeRun) → g.free_group ≡ rs → Dequeued g (freelist_getpage g)
    by-cases [] e = absurd (ground (arith, v.counted, ap (λ l. length (pages l)) e))
    by-cases (r ∷ rs) e =
        let all : All NonEmpty (r ∷ rs) = rw e at v.runs in
        let step = advance-pages r rs all.0 all.1 in
        record {
          page_no = r.page_start;
          rest = record g { free_group = advance r rs; total_page = g.total_page -ℤ pos 1 };
          returns = rw e refl;
          first = rw e step.1;
          valid = record {
            runs = step.0;
            counted =
                let n : length (pages g.free_group) ≡ suc (length (pages (advance r rs))) =
                  ap (λ l. length (pages l)) e ∙ ap length step.1 in
                rw (v.counted, n) (-ℤ-one _);
            unlocked = v.unlocked;
          };
        }
