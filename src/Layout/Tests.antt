-- ===== src/Layout/Tests.antt =====
-- The layout of a node with three peers.
use comex.Base.{ℕ, ◌+◌, ◌≤◌, ◌<◌, ◌≡◌}
use comex.Layout.{Sizes, local_page_offset, remote_page_offset}
use comex.Layout.Regions.{remote_page-shadows-local}

abbrev sizes : Sizes
sizes = record { total_nodes = 3; total_pages = 2048; total_write_out = 32; total_read_in = 64 }

remote_page-shadows-local_example :
    (d : ℕ) × (0 < d) × (d ≤ 1024) × (remote_page_offset sizes 5 ≡ local_page_offset sizes (5 + d))
remote_page-shadows-local_example = remote_page-shadows-local sizes 5
