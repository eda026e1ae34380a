-- ===== src/Rmap/Owner.antt =====
-- get_taskStruct and get_page_PID agree.
use comex.Base.{◌≡◌, refl, Option, none, some}
use comex.Base.Int.{pos}
use comex.Rmap.{Task, AnonVma, get_task_struct, get_page_pid}

-- If get_taskStruct finds a task, get_page_PID returns its process id.
pub owner-pid :
    (v : Option AnonVma) (t : Task) → get_task_struct v ≡ some t → get_page_pid v ≡ some (pos t.pid)
unfolding get_task_struct get_page_pid
owner-pid none t e = absurd (none-not_some e)
  where
    none-not_some : none ≡ some t → ⊥
    none-not_some e = cc
owner-pid (some avcs) t e = rw e refl
