-- ===== src/Layout.antt =====
-- Where the pages lie in the node's shared memory: `get_writeOut_buff` and `get_readIn_buff` of
-- `Kernel Modification/comex_remote.h`, the local pages of `Kernel Modification/comex_lib.h`, and
-- the offset of remote pages of `krpingTrimmed/COMEX_module_lib.h`. Addresses are byte offsets, as
-- numbers with no wrap-around.
pub mod Regions
mod Tests
use comex.Base.{ℕ, ◌+◌, ◌*◌, ◌/◌, ◌^◌}

-- X86PageSize, and SHIFT_PAGE
abbrev pub page_size : ℕ
page_size = 4096

abbrev pub shift_page : ℕ
shift_page = 12

-- The sizes that COMEX_init_ENV is given
pub record Sizes : Type 0 where
  pub total_nodes : ℕ
  pub total_pages : ℕ
  pub total_write_out : ℕ
  pub total_read_in : ℕ

module _ (z : Sizes) where
  open z use {total_nodes, total_write_out, total_read_in}

  unfoldable pub get_write_out_buff : (node_id buff_slot : ℕ) → ℕ
  get_write_out_buff node_id buff_slot = (node_id * total_write_out + buff_slot) * page_size

  unfoldable pub get_read_in_buff : (buff_slot : ℕ) → ℕ
  get_read_in_buff buff_slot = (total_write_out * total_nodes + buff_slot) * page_size

  -- The offset of a local page: `(uint64_t)offsetNO << SHIFT_PAGE`
  unfoldable pub local_page_offset : (page_no : ℕ) → ℕ
  local_page_offset page_no =
      (page_no + total_write_out * total_nodes + total_read_in) * 2 ^ shift_page

  -- remote_shift_offset, as COMEX_init leaves it
  unfoldable pub remote_shift_offset : ℕ
  remote_shift_offset =
      let pages = total_write_out * total_nodes + total_read_in in
      let groups = pages / 2 ^ 10 in (groups + 1) * 2 ^ 10 * 2 ^ 12

  -- Where the page with this number lies on the node that lent it:
  -- `(page_no << SHIFT_PAGE) + remote_shift_offset`
  unfoldable pub remote_page_offset : (page_no : ℕ) → ℕ
  unfolding remote_shift_offset
  remote_page_offset page_no = page_no * 2 ^ shift_page + remote_shift_offset
