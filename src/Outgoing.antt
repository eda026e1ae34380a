-- ===== src/Outgoing.antt =====
-- How a page goes out to another node: COMEX_hash and COMEX_move_to_Remote of
-- `Kernel Modification/comex_remote.h`. The contents of a page and the other nodes' memory are any
-- types, as in WriteOut. The call is taken as one step, though mutex_FG is released before the page is copied.
pub mod Put
pub mod Queue
mod Tests
use comex.Base.{
  ℕ, zero, suc, ◌+◌, ◌-◌, ◌*◌, ◌%◌, Bool, true, false, not, ◌&&◌, List, [], ◌∷◌, ◌++◌, Option, none,
  some, ◌==◌, if◌then◌else◌, update,
}
use comex.Base.Int.{ℤ, pos, minus_one, ◌==ℤ◌, ltb_ℤ, leb_ℤ}
use comex.FreeGroup.{FreeGroup, freelist_getpage}
use comex.ReadIn.{Cache, void_prefetch}
use comex.WriteOut.{Desc, Ring, Verbs, flush_buff}

-- COMEX_hash, with COMEX_nMemNodes first
pub comex_hash : (n_mem_nodes seed node_id : ℕ) → ℕ
comex_hash n_mem_nodes seed node_id = (seed * node_id + 1) % n_mem_nodes

-- FLUSH
abbrev pub flush : ℕ
flush = 32

-- The test of total_page against COMEX_threshold: the group, and whether PAGE_RQST is sent.
pub ask_for_more : (threshold : ℤ) → FreeGroup → FreeGroup × Bool
ask_for_more threshold g =
    if leb_ℤ g.total_page threshold
    then (if g.back_off == 0
        then (record g { back_off = 10000 }, true)
        else (record g { back_off = g.back_off - 1 }, false))
    else (g, false)

module _ {ℓ κ} {A : Type ℓ} {M : Type κ} (verbs : Verbs A M) (total_write_out : ℕ) where
  pub flush_full_tail : M × Ring A → M × Ring A
  flush_full_tail (m, r) =
      if (r.buff r.tail).status ==ℤ pos 2 then flush_buff verbs total_write_out m r else (m, r)

  -- The slot at tail is taken and filled, and tail moves on.
  pub fill_slot : Ring A → (node_id page_no : ℕ) → A → Ring A
  fill_slot r node_id page_no old_page =
      let slot = r.tail in
      let taken = update r.buff slot (record (r.buff slot) { status = pos 1 }) in
      let full : Desc = record { status = pos 2; node_id = pos node_id; page_no = pos page_no } in
      record r {
        buff = update taken slot full;
        contents = update r.contents slot old_page;
        tail = (slot + 1) % total_write_out;
      }

  -- The page is put into its slot; at every 32nd slot but the first the ring is flushed.
  pub put_page : M × Ring A → (node_id page_no : ℕ) → A → M × Ring A
  put_page (m, r) node_id page_no old_page =
      let r' = fill_slot r node_id page_no old_page in
      if r.tail % flush == 0 && not (r.tail == 0)
      then flush_buff verbs total_write_out m r'
      else (m, r')

-- The state of a node that COMEX_move_to_Remote reads and writes, by the other node's number, with
-- the nodes that PAGE_RQST has been sent to.
pub record Out {ℓ κ} (A : Type ℓ) (M : Type κ) : Type (ℓ ⊔ κ) where
  pub free_group : ℕ → FreeGroup
  pub ring : ℕ → M × Ring A
  pub cache : Cache A
  pub requests : List ℕ

-- How a round of the loop ends. `broken`: the list of a node that counts pages is empty, and the code
-- goes on with the memory in front of its head.
pub data Round {ℓ κ} (A : Type ℓ) (M : Type κ) : Type (ℓ ⊔ κ) where
  gives_up : Out A M → Round A M
  goes_on : Out A M → Round A M
  moved : (page_no : ℕ) → Out A M → Round A M
  broken : Round A M

-- What COMEX_move_to_Remote returns: 1 with the node and page number, -1, or nothing that is defined.
pub data Destination : Type 0 where
  sent_to : (node_id page_no : ℕ) → Destination
  nowhere undefined : Destination

-- The parameters of the node: COMEX_ID, COMEX_threshold, COMEX_total_writeOut, COMEX_total_readIn and
-- COMEX_nMemNodes
pub record Config : Type 0 where
  pub node_id : ℕ
  pub threshold : ℤ
  pub total_write_out : ℕ
  pub total_read_in : ℕ
  pub n_mem_nodes : ℕ

module _ {ℓ κ} {A : Type ℓ} {M : Type κ} (verbs : Verbs A M) (k : Config) where
  open k use {total_write_out, total_read_in}

  -- A page is at hand and the slot at tail is empty: the rest of the round. The test for page -1 is
  -- left out, since COMEX_freelist_getpage does not return it.
  pub move_page : Out A M → (dest_node : ℕ) → FreeGroup → M × Ring A → A → Round A M
  move_page s dest_node g ring old_page = elim (freelist_getpage g) [
    | none ↦ broken
    | some (page_no, g') ↦ moved page_no (record s {
      free_group = update s.free_group dest_node g';
      cache = void_prefetch total_read_in s.cache dest_node page_no;
      ring =
          update s.ring dest_node (put_page verbs total_write_out ring dest_node page_no old_page);
    })
  ]

  -- One round. `locked`: mutex_trylock fails.
  pub try_node : Out A M → (dest_node : ℕ) → A → Round A M
  try_node s dest_node old_page =
      let g = s.free_group dest_node in
      let (g', sent) = ask_for_more k.threshold g in
      let ring = flush_full_tail verbs total_write_out (s.ring dest_node) in
      let s' = record s { requests = s.requests ++ (if sent then dest_node ∷ [] else []) } in
      let empty = ((ring.1).buff (ring.1).tail).status ==ℤ minus_one in
      if g.locked
      then gives_up s
      else if ltb_ℤ (pos 0) g'.total_page && empty
      then move_page s' dest_node g' ring old_page
      else goes_on (record s' {
        free_group = update s'.free_group dest_node g';
        ring = update s'.ring dest_node ring;
      })

  -- The loop, with `n` rounds left
  pub try_nodes : (n : ℕ) → Out A M → (dest_node : ℕ) → A → Out A M × Destination
  try_nodes zero s dest_node old_page = (s, nowhere)
  try_nodes (suc n) s dest_node old_page = elim (try_node s dest_node old_page) [
    | gives_up s' ↦ (s', nowhere)
    | moved page_no s' ↦ (s', sent_to dest_node page_no)
    | broken ↦ (s, undefined)
    | goes_on s' ↦ try_nodes n s' (comex_hash k.n_mem_nodes dest_node k.node_id) old_page
  ]

  -- COMEX_move_to_Remote of a page of the process `pid`
  pub move_to_remote : Out A M → (pid : ℕ) → A → Out A M × Destination
  move_to_remote s pid old_page =
      try_nodes k.n_mem_nodes s (comex_hash k.n_mem_nodes pid k.node_id) old_page
