-- ===== src/Transport.antt =====
-- RDMA transfers between the nodes' memories: regis_bigspace, translate_useraddr, do_write and do_read
-- of `krpingTrimmed/krping.c`, and COMEX_offset_to_addr_fn of `krpingTrimmed/COMEX_module_lib.h`.
-- A node's memory is in pieces of 4 MB. kmalloc and the posting of a work request belong to the
-- kernel and the verbs library and are arguments. Addresses and 64-bit offsets are numbers with no
-- wrap-around.
pub mod Pieces
pub mod Within
mod Tests
use comex.Base.{
  ℕ, zero, suc, ◌+◌, ◌/◌, ◌%◌, Bool, true, false, ◌||◌, Option, none, some, ltb, ◌==◌,
  if◌then◌else◌, update,
}
use comex.Base.Int.{ℤ, pos, minus_one, ◌==ℤ◌}

-- RPING_BUFSIZE
abbrev pub rping_bufsize : ℕ
rping_bufsize = 4194304

-- The first loop of regis_bigspace over bufferpages, with `n` rounds left from `i` on: NULL is 0.
pub clear_pages : (n i : ℕ) → (ℕ → ℕ) → ℕ → ℕ
clear_pages zero i bufferpages = bufferpages
clear_pages (suc n) i bufferpages = clear_pages n (i + 1) (update bufferpages i 0)

-- The second loop: `kmalloc i` is what the i-th call returns.
pub alloc_pages : (kmalloc : ℕ → ℕ) (n i : ℕ) → (ℕ → ℕ) → (ℕ → ℕ) × ℤ
alloc_pages kmalloc zero i bufferpages = (bufferpages, pos 0)
alloc_pages kmalloc (suc n) i bufferpages =
    let bufferpages' = update bufferpages i (kmalloc i) in
    let rest = alloc_pages kmalloc n (i + 1) bufferpages' in
    if kmalloc i == 0 then (bufferpages', minus_one) else rest

-- regis_bigspace, of which the caller ignores the result: `memory` is what bufferpages held.
pub regis_bigspace : (kmalloc : ℕ → ℕ) (num_bigpages : ℕ) (memory : ℕ → ℕ) → (ℕ → ℕ) × ℤ
regis_bigspace kmalloc num_bigpages memory =
    alloc_pages kmalloc num_bigpages 0 (clear_pages num_bigpages 0 memory)

-- translate_useraddr, which COMEX_offset_to_addr_fn returns: 0 for NULL
unfoldable pub translate_useraddr : (bufferpages : ℕ → ℕ) (offset : ℕ) → ℕ
translate_useraddr bufferpages offset =
    if bufferpages (offset / rping_bufsize) == 0
    then 0
    else bufferpages (offset / rping_bufsize) + offset % rping_bufsize

pub data Opcode : Type 0 where
  rdma_write rdma_read : Opcode

-- The work request that is posted, less the fields that are always the same
pub record WorkRequest : Type 0 where
  pub opcode : Opcode
  pub rkey : ℕ
  pub lkey : ℕ
  pub length : ℕ
  pub addr : ℕ
  pub remote_addr : ℕ

-- The part of a krping_cb that a transfer reads. The code takes `lkey` from dma_mr->rkey.
pub record Peer : Type 0 where
  pub dmapages : ℕ → ℕ
  pub remote_addr : ℕ → ℕ
  pub remote_pcount : ℕ
  pub remote_rkey : ℕ
  pub dma_rkey : ℕ

-- The checks that do_write and do_read make first: does the run cross the end of a piece on either
-- side, and is the remote piece's number too large?
pub is_misaligned : (local_offset remote_offset size : ℕ) → Bool
is_misaligned local_offset remote_offset size =
    ltb rping_bufsize (local_offset % rping_bufsize + size)
    || ltb rping_bufsize (remote_offset % rping_bufsize + size)

pub is_beyond : Peer → (remote_offset : ℕ) → Bool
is_beyond cb remote_offset = ltb cb.remote_pcount (remote_offset / rping_bufsize)

abbrev pub request : Peer → Opcode → (local_offset remote_offset size : ℕ) → WorkRequest
request cb opcode local_offset remote_offset size = record {
  opcode = opcode;
  rkey = cb.remote_rkey;
  lkey = cb.dma_rkey;
  length = size;
  addr = cb.dmapages (local_offset / rping_bufsize) + local_offset % rping_bufsize;
  remote_addr = cb.remote_addr (remote_offset / rping_bufsize) + remote_offset % rping_bufsize;
}

-- What do_write and do_read share: the request that is posted, if one is, and the result. `post` is
-- ib_post_send. The wait for the completion has no result that the code looks at.
pub transfer :
    (post : WorkRequest → ℤ)
    → Peer
    → Opcode
    → (local_offset remote_offset size : ℕ) → Option WorkRequest × ℤ
transfer post cb opcode local_offset remote_offset size =
    let wr = request cb opcode local_offset remote_offset size in
    if is_misaligned local_offset remote_offset size
    then (none, pos 1)
    else if is_beyond cb remote_offset
    then (none, pos 1)
    else if post wr ==ℤ pos 0
    then (some wr, pos 0)
    else (some wr, post wr)

pub do_write :
    (post : WorkRequest → ℤ) → Peer → (local_offset remote_offset size : ℕ) → Option WorkRequest × ℤ
do_write post cb local_offset remote_offset size =
    transfer post cb rdma_write local_offset remote_offset size

pub do_read :
    (post : WorkRequest → ℤ) → Peer → (local_offset remote_offset size : ℕ) → Option WorkRequest × ℤ
do_read post cb local_offset remote_offset size =
    transfer post cb rdma_read local_offset remote_offset size
