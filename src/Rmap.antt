-- ===== src/Rmap.antt =====
-- Whose page it is, and the sum of its bytes: `Kernel Modification/comex_util.h`. The pointers that
-- may be NULL are options; what page_lock_anon_vma_read and the interval tree give is an argument.
pub mod Sums
pub mod Owner
use comex.Base.{ℕ, zero, suc, ◌+◌, List, [], ◌∷◌, Option, none, some, ◌>>=◌}
use comex.Base.Int.{ℤ, pos, minus_one}

-- The parts of task_struct, mm_struct and vm_area_struct that the code reads
pub record Task : Type 0 where
  pub pid : ℕ
  pub comm : List ℕ

pub record Mm : Type 0 where
  pub owner : Option Task

pub record Vma : Type 0 where
  pub mm : Option Mm

-- The chain entries of a page's anon_vma, each with its `vma`
abbrev pub AnonVma : Type 0
AnonVma = List (Option Vma)

unfoldable pub first_owner : AnonVma → Option Task
first_owner [] = none
first_owner (vma ∷ avcs) = do v ← vma; m ← v.mm; m.owner

-- get_taskStruct
unfoldable pub get_task_struct : (anon_vma : Option AnonVma) → Option Task
get_task_struct anon_vma = do avcs ← anon_vma; first_owner avcs

-- get_page_PID. `none`: it reads the pid of a NULL task.
pub get_page_pid : (anon_vma : Option AnonVma) → Option ℤ
get_page_pid none = some minus_one
get_page_pid (some avcs) = do my_task ← first_owner avcs; some (pos my_task.pid)

-- The count of the chain entries in add_to_swap
unfoldable pub rmap_counter : AnonVma → ℕ
rmap_counter [] = 0
rmap_counter (avc ∷ avcs) = suc (rmap_counter avcs)

-- The loop of checkSum_page and checkSum_Vpage, with `n` rounds left from byte `i` on
pub sum_bytes : (chr_ptr : ℕ → ℕ) (n i ret : ℕ) → ℕ
sum_bytes chr_ptr zero i ret = ret
sum_bytes chr_ptr (suc n) i ret = sum_bytes chr_ptr n (i + 1) (ret + chr_ptr i)

pub checksum_page : (chr_ptr : ℕ → ℕ) → ℕ
checksum_page chr_ptr = sum_bytes chr_ptr 4096 0 0
