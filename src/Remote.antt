-- ===== src/Remote.antt =====
-- COMEX_init_Remote of `Kernel Modification/comex_lib.h`: the arrays that are kept for the other nodes.
-- What vmalloc returns holds any state.
pub mod Initial
mod Tests
use comex.Base.{ℕ, zero, suc, ◌+◌, false, List, [], update}
use comex.Base.Int.{pos}
use comex.FreeBatch.{Slot, clean_free_struct}
use comex.FreeGroup.{FreeGroup}
use comex.Layout.{Sizes}
use comex.ReadIn.{Cache}
use comex.WriteOut.{Desc, no_page, Ring}

-- COMEX_free_group, COMEX_writeOut_buff with buff_pos, COMEX_readIn_buff and COMEX_free_struct
pub record Remote {ℓ} (A : Type ℓ) : Type ℓ where
  pub free_group : ℕ → FreeGroup
  pub ring : ℕ → Ring A
  pub read_in : Cache A
  pub free_struct : ℕ → List Slot

-- A loop over an array, with `n` entries left from `i` on: each entry is changed by `g`.
pub for_each {ℓ} : {A : Type ℓ} → (g : A → A) (n i : ℕ) → (ℕ → A) → ℕ → A
for_each g zero i f = f
for_each g (suc n) i f = for_each g n (i + 1) (update f i (g (f i)))

-- The bodies of the loops
pub init_group : FreeGroup → FreeGroup
init_group g = record { total_page = pos 0; back_off = 0; locked = false; free_group = [] }

pub init_pos {ℓ} : {A : Type ℓ} → Ring A → Ring A
init_pos r = record r { head = 0; tail = 0 }

pub init_desc : Desc → Desc
init_desc d = no_page

pub init_write_out {ℓ} : {A : Type ℓ} → (total_write_out : ℕ) → Ring A → Ring A
init_write_out total_write_out r = record r { buff = for_each init_desc total_write_out 0 r.buff }

pub init_remote {ℓ} : {A : Type ℓ} → Sizes → Remote A → Remote A
init_remote z s =
    let n = z.total_nodes in
    record {
      free_group = for_each init_group n 0 s.free_group;
      ring = for_each (init_write_out z.total_write_out) n 0 (for_each init_pos n 0 s.ring);
      read_in = record s.read_in { buff = for_each init_desc z.total_read_in 0 s.read_in.buff };
      free_struct = for_each (λ ss. clean_free_struct) n 0 s.free_struct;
    }
