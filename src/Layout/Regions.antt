-- ===== src/Layout/Regions.antt =====
-- The buffers and the pages do not overlap, and one node's local and lent pages may.
use comex.Base.{ℕ, ◌+◌, ◌-◌, ◌*◌, ◌%◌, ◌≤◌, ◌<◌, ◌≡◌, ◌≢◌, ◌⊎◌, inl, inr, ap, arith}
use native.Mathlib.Decide.{dec_lt}
use comex.Layout.{
  Sizes, page_size, get_write_out_buff, get_read_in_buff, local_page_offset, remote_page_offset,
}

-- Two pages of memory with no byte in common.
abbrev pub Apart : ℕ → ℕ → Type 0
Apart a b = (a + page_size ≤ b) ⊎ (b + page_size ≤ a)

module _ (z : Sizes) where
  open z use {total_nodes, total_write_out, total_read_in}

  lower_node :
      (n m i j : ℕ)
      → n < m
      → i < total_write_out
      → n * total_write_out + i < m * total_write_out + j
  lower_node n m i j h p = grind arith

  -- Different write-out slots, of one node or two, have no byte in common.
  pub write_out-Apart :
      (n m i j : ℕ)
      → i < total_write_out
      → j < total_write_out
      → (n ≢ m) ⊎ (i ≢ j)
      → Apart (get_write_out_buff z n i) (get_write_out_buff z m j)
  unfolding get_write_out_buff
  write_out-Apart n m i j p q d = elim (dec_lt n m) [
    | yes l ↦ inl (omega (arith, lower_node n m i j l p))
    | no a ↦ elim (dec_lt m n) [
      | yes l ↦ inr (omega (arith, lower_node m n j i l q))
      | no b ↦
          let e : n ≡ m = omega arith in
          let e' : n * total_write_out ≡ m * total_write_out = ap (λ k. k * total_write_out) e in
          elim (dec_lt i j) [ yes l ↦ inl (omega arith) | no c ↦ inr (ground (arith, d)) ]
    ]
  ]

  -- The write-out slots of the nodes lie below the read-in slots, and these below both the local
  -- pages and those lent to other nodes.
  pub regions_in_order :
      (n i j p : ℕ)
      → n < total_nodes
      → i < total_write_out
      → j < total_read_in
      → (get_write_out_buff z n i + page_size ≤ get_read_in_buff z j)
        × (get_read_in_buff z j + page_size ≤ local_page_offset z p)
        × (get_read_in_buff z j + page_size ≤ remote_page_offset z p)
  unfolding get_write_out_buff get_read_in_buff local_page_offset remote_page_offset
  regions_in_order n i j p a b c = (grind arith, omega arith, omega arith)

  -- A page number lent to another node stands for the bytes of another, higher local page number,
  -- at most 1024 pages further: a node that uses local pages and lends pages out shares memory
  -- between the two although the allocator keeps their numbers apart.
  pub remote_page-shadows-local :
      (p : ℕ)
      → (d : ℕ) × (0 < d) × (d ≤ 1024) × (remote_page_offset z p ≡ local_page_offset z (p + d))
  unfolding local_page_offset remote_page_offset
  remote_page-shadows-local p = (
    1024 - (total_write_out * total_nodes + total_read_in) % 1024,
    omega arith,
    omega arith,
    omega arith,
  )

  -- A run of `n` lent pages that does not cross a multiple of 1024 lies in one 4 MB piece of the
  -- lender's memory.
  pub remote_run-in_piece :
      (p n : ℕ) → p % 1024 + n ≤ 1024 → remote_page_offset z p % 4194304 + n * page_size ≤ 4194304
  unfolding remote_page_offset
  remote_run-in_piece p n h = omega arith
