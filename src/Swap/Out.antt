-- ===== src/Swap/Out.antt =====
-- Swapping a page out: add_to_swap of `Kernel Modification/swap_state.c`, with COMEX_move_to_COMEX and
-- COMEX_move_to_Remote as Local and Outgoing have them. The call is one step.
pub mod Chosen
pub mod Entered
pub mod Pooled
use comex.Base.{
  ℕ, suc, Bool, true, false, ◌&&◌, List, Option, none, some, ◌==◌, if◌then◌else◌, update,
}
use comex.Base.Int.{ℤ, pos, pos_part, ◌==ℤ◌}
use comex.Buddy.{Buddy}
use comex.Layout.{Sizes}
use comex.Local.{move_to_comex}
use comex.Outgoing.{Out, Config, Destination, sent_to, nowhere, undefined, move_to_remote}
use comex.Rmap.{Task, AnonVma, get_task_struct, get_page_pid, rmap_counter}
use comex.Swap.{Swapops, local_entry, remote_entry, RadixTree, SwapCache, add_to_swap_cache}
use comex.WriteOut.{Verbs}

-- What add_to_swap reads of the page. `split_fails`: split_huge_page_to_list fails.
pub record Candidate : Type 0 where
  pub mapcount : ℤ
  pub count : ℤ
  pub anon_vma : Option AnonVma
  pub is_huge : Bool
  pub split_fails : Bool

-- The state of a node that swapping reads and writes; `devices` is that of the other swap devices.
pub record Host {ℓ κ μ ν} (A : Type ℓ) (M : Type κ) (T : Type μ) (K : Type ν)
    : Type (ℓ ⊔ κ ⊔ μ ⊔ ν) where
  pub buddy : Buddy
  pub memory : ℕ → A
  pub out : Out A M
  pub cache : SwapCache T
  pub devices : K
  pub swap_to_comex : ℕ
  pub swap_to_disk : ℕ
  pub swap_total : ℕ

-- The rest of the kernel: get_swap_page, with 0 for no entry, swapcache_free, strcmp, and
-- swap_address_space.
pub record Kernel {μ ν} (T : Type μ) (K : Type ν) : Type (μ ⊔ ν) where
  pub radix : RadixTree T
  pub space : ℕ → ℕ
  pub swapops : Swapops
  pub get_swap_page : K → K × ℕ
  pub swapcache_free : K → (entry : ℕ) → K
  pub strcmp : List ℕ → List ℕ → ℤ

-- COMEX_Ready, proc_name and the sizes
pub record Settings : Type 0 where
  pub comex_ready : Bool
  pub proc_name : List ℕ
  pub sizes : Sizes
  pub config : Config

-- What becomes of a page before it gets an entry of another device. `crash`: the code goes on with
-- an undefined page number or reads from NULL.
pub data Choice : Type 0 where
  chosen : (entry : ℕ) → Choice
  not_chosen crash : Choice

module _ {ℓ κ μ ν} {A : Type ℓ} {M : Type κ} {T : Type μ} {K : Type ν} (verbs : Verbs A M)
    (kernel : Kernel T K) (settings : Settings) where
  open kernel use {radix, space, swapops, get_swap_page, swapcache_free, strcmp}
  open settings use {comex_ready, proc_name, sizes, config}

  unfoldable pub is_ours : Option Task → Bool
  is_ours none = false
  is_ours (some t) = strcmp t.comm proc_name ==ℤ pos 0

  unfoldable pub is_eligible : Candidate → Bool
  is_eligible page =
      comex_ready
      && (page.mapcount ==ℤ pos 1)
      && (page.count ==ℤ pos 2)
      && is_ours (get_task_struct page.anon_vma)

  -- COMEX_move_to_Remote
  pub choose_remote : Host A M T K → (pid : ℕ) → A → Host A M T K × Choice
  choose_remote h pid old_page =
      let (out', dest) = move_to_remote verbs config h.out pid old_page in
      let h' = record h { out = out' } in
      elim dest [
        | sent_to n p ↦ (h', chosen (remote_entry swapops n p))
        | nowhere ↦ (h', not_chosen)
        | undefined ↦ (h', crash)
      ]

  -- COMEX_move_to_COMEX, and else COMEX_move_to_Remote
  pub choose_pool : Host A M T K → Candidate → A → Host A M T K × Choice
  choose_pool h page old_page =
      let (b, memory', page_no) = move_to_comex sizes h.buddy h.memory old_page in
      let h' = record h { buddy = b; memory = memory' } in
      elim page_no [
        | some p ↦ (h', chosen (local_entry swapops p))
        | none ↦ elim (get_page_pid page.anon_vma) [
          | none ↦ (h', crash)
          | some pid ↦ choose_remote h' (pos_part pid) old_page
        ]
      ]

  pub choose : Host A M T K → Candidate → A → Host A M T K × Choice
  choose h page old_page = elim page.anon_vma [
    | none ↦ (h, not_chosen)
    | some avcs ↦
        if is_eligible page && rmap_counter avcs == 1
        then choose_pool h page old_page
        else (h, not_chosen)
  ]

  -- From the test of the entry on
  pub enter_cache : Host A M T K → Candidate → (preload : ℤ) (page entry : ℕ) → Host A M T K × ℕ
  enter_cache h candidate preload page entry =
      let (cache', err) = add_to_swap_cache radix space preload h.cache page entry in
      let dirty = update cache'.page page (record (cache'.page page) { dirty = true }) in
      let counted = record h { swap_total = suc h.swap_total } in
      let freed = record counted { devices = swapcache_free h.devices entry } in
      if entry == 0
      then (h, 0)
      else if candidate.is_huge && candidate.split_fails
      then (freed, 0)
      else if err ==ℤ pos 0
      then (record counted { cache = record cache' { page = dirty } }, 1)
      else (record freed { cache = cache' }, 0)

  -- add_to_swap of page number `page`. `none`: crash
  pub add_to_swap :
      Host A M T K → Candidate → (preload : ℤ) (page : ℕ) → A → Option (Host A M T K × ℕ)
  add_to_swap h candidate preload page old_page =
      let (h', choice) = choose h candidate old_page in
      elim choice [
        | crash ↦ none
        | chosen entry ↦
            let h'' = record h' { swap_to_comex = suc h'.swap_to_comex } in
            some (enter_cache h'' candidate preload page entry)
        | not_chosen ↦
            let (devices', entry) = get_swap_page h'.devices in
            let h'' = record h' { swap_to_disk = suc h'.swap_to_disk; devices = devices' } in
            some (enter_cache h'' candidate preload page entry)
      ]
