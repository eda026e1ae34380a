-- ===== src/ReadIn.antt =====
-- The buffers into which pages are read from other nodes, sixteen at a time: the read-in part of
-- `Kernel Modification/comex_remote.h`. The contents of a page are any type, and the RDMA read, which
-- the verbs library performs, is an argument with its law; do_read of `krpingTrimmed/krping.c`,
-- which Transport models, may refuse it or fail.
pub mod Window
pub mod Coherent
mod Tests
use comex.Base.{
  ℕ, zero, suc, ◌+◌, ◌-◌, ◌%◌, ◌^◌, ◌<◌, ◌≡◌, Bool, true, false, ◌&&◌, Option, none, some, ltb, leb,
  if◌then◌else◌, update,
}
use comex.Base.Int.{ℤ, pos, ◌==ℤ◌}
use comex.WriteOut.{Desc, no_page}

-- PreF_BITS, and PreF_SIZE
abbrev pub pre_f_bits : ℕ
pre_f_bits = 4

abbrev pub pre_f_size : ℕ
pre_f_size = 2 ^ pre_f_bits

-- x & PreF_MASK: the low bits are cleared.
abbrev pub pre_f_floor : ℕ → ℕ
pre_f_floor x = x - x % pre_f_size

-- COMEX_readIn_buff, with what the slots hold
pub record Cache {ℓ} (A : Type ℓ) : Type ℓ where
  pub buff : ℕ → Desc
  pub contents : ℕ → A

-- The pages that the other nodes hold; whether do_read returns 0 for a transfer of `size` pages of one
-- of them into the slots from `slot` on, which depends on its checks and on ib_post_send; and what the
-- transfer reads then.
pub record Reads {ℓ} (A : Type ℓ) : Type ℓ where
  pub held : (node_id page_no : ℕ) → A
  pub accepts : (node_id page_no slot size : ℕ) → Bool
  pub fetch : (node_id page_no size : ℕ) → ℕ → A
  pub fetch_is :
      (node_id page_no size i : ℕ)
      → i < size
      → fetch node_id page_no size i ≡ held node_id (page_no + i)

-- The loops of COMEX_read_from_remote over the descriptors, with `n` rounds left: entry `slot + i`
-- is set to `v i`.
pub fill : (ℕ → Desc) → (slot n i : ℕ) → (ℕ → Desc) → ℕ → Desc
fill d slot zero i v = d
fill d slot (suc n) i v = fill (update d (slot + i) (v i)) slot n (i + 1) v

-- The descriptor of a page that has been read, and of the i-th page of a window.
abbrev pub holding : (node_id page_no : ℕ) → Desc
holding node_id page_no = record { status = pos 2; node_id = pos node_id; page_no = pos page_no }

abbrev pub filled : (node_id page_no i : ℕ) → Desc
filled node_id page_no i = holding node_id (page_no + i)

-- A transfer puts the page `i` of the window into slot `slot + i`.
pub receive {ℓ} : {A : Type ℓ} → (ℕ → A) → (slot size : ℕ) → (ℕ → A) → ℕ → A
receive contents slot size pages j =
    if leb slot j && ltb j (slot + size) then pages (j - slot) else contents j

module _ {ℓ} {A : Type ℓ} (total_read_in : ℕ) where
  -- COMEX_read_from_preFetch: what it copies, if it returns 1
  pub read_from_prefetch : Cache A → (node_id page_no : ℕ) → Option A
  read_from_prefetch c node_id page_no =
      let d = c.buff (page_no % total_read_in) in
      if (d.status ==ℤ pos 2) && (d.node_id ==ℤ pos node_id) && (d.page_no ==ℤ pos page_no)
      then some (c.contents (page_no % total_read_in))
      else none

  -- COMEX_void_preFetch
  pub void_prefetch : Cache A → (node_id page_no : ℕ) → Cache A
  void_prefetch c node_id page_no =
      let index = page_no % total_read_in in
      let d = c.buff index in
      if (d.node_id ==ℤ pos node_id) && (d.page_no ==ℤ pos page_no)
      then record c { buff = update c.buff index no_page }
      else c

  -- COMEX_read_from_remote: what it copies, and the buffers. The result of COMEX_RDMA is ignored: if
  -- do_read does not return 0, the slots are marked as full with what they have held before.
  pub read_from_remote : Reads A → Cache A → (node_id page_no : ℕ) → A × Cache A
  read_from_remote reads c node_id page_no =
      let buff_idx = page_no % total_read_in in
      let buff_flr = pre_f_floor buff_idx in
      let page_flr = pre_f_floor page_no in
      let cleared = fill c.buff buff_flr pre_f_size 0 (λ i. no_page) in
      let contents =
        if reads.accepts node_id page_flr buff_flr pre_f_size
        then receive c.contents buff_flr pre_f_size (reads.fetch node_id page_flr pre_f_size)
        else c.contents in
      let marked = fill cleared buff_flr pre_f_size 0 (filled node_id page_flr) in
      (contents buff_idx, record { buff = marked; contents = contents })

  -- COMEX_read_from_remote_one, which leaves the descriptors as they are
  pub read_from_remote_one : Reads A → Cache A → (node_id page_no : ℕ) → A × Cache A
  read_from_remote_one reads c node_id page_no =
      let buff_idx = page_no % total_read_in in
      let contents =
        if reads.accepts node_id page_no buff_idx 1
        then receive c.contents buff_idx 1 (reads.fetch node_id page_no 1)
        else c.contents in
      (contents buff_idx, record c { contents = contents })

  -- read_swap_cache_async after COMEX_read_from_buffer has missed: the prefetched page, else the
  -- window is read.
  pub read_remote_page : Reads A → Cache A → (node_id page_no : ℕ) → A × Cache A
  read_remote_page reads c node_id page_no = elim (read_from_prefetch c node_id page_no) [
    | some a ↦ (a, c)
    | none ↦ read_from_remote reads c node_id page_no
  ]
