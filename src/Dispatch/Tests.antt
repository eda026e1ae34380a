-- ===== src/Dispatch/Tests.antt =====
-- Runs of messages between two nodes.
use comex.Base.{◌*◌, ◌≡◌, refl, true, false, List, [], ◌∷◌, some, none, if◌then◌else◌, arith}
use comex.Base.Int.{pos, minus_one, ◌==ℤ◌}
use comex.Buddy.{Buddy, free_page}
use comex.Buddy.Links.{max_order}
use comex.Buddy.Blocks.{cover_none}
use comex.Buddy.Release.{Released, free_page-Released}
use comex.FreeBatch.{Slot}
use comex.FreeGroup.{FreeGroup}
use comex.FreeGroup.Fifo
use comex.Init.{init_areas, init_pages}
use comex.Init.Fresh.{no_blocks, fresh-IsValid}
use comex.Layout.{Sizes, page_size, get_write_out_buff, remote_shift_offset, remote_page_offset}
use comex.Lend.{Reply}
use comex.Transport.{Peer, rdma_write, request}
use comex.WriteOut.{no_page, free_buff}
use comex.Dispatch.{Net, Node, id_to_cb, page_rqst, page_rply, page_wrte, comex_rdma, do_work}
use comex.Dispatch.Lending.{Lent, group_after, request-Lent}
use comex.Dispatch.Sending.{flush_address, page_wrte-Posted, page_wrte-stuck}

abbrev memory : Buddy
memory = record {
  heads = record { next = λ p. 0; prev = λ p. 0 };
  nr_free = λ o. pos 0;
  page = λ j. record { page_no = 0; private = 0; mapcount = pos 0; cntr = pos 0 };
}

-- 64 pages from page 128 on are free.
abbrev some_free : Buddy
some_free = free_page (init_pages (init_areas memory max_order 0) 1024 0) 128 6

some_freed : Released 1024 no_blocks 6 128 some_free
some_freed =
    free_page-Released (fresh-IsValid memory 1024 refl) 6 128 (omega arith) refl (omega arith)
      (λ j x y. cover_none j)

abbrev nothing_lent : FreeGroup
nothing_lent = record { total_page = pos 0; back_off = 0; locked = false; free_group = [] }

nothing_lent-IsValid : Fifo.IsValid nothing_lent
nothing_lent-IsValid = record { runs = tt; counted = refl; unlocked = refl }

abbrev some_peer : Peer
some_peer = record {
  dmapages = λ i. i * 8388608;
  remote_addr = λ i. i * 16777216;
  remote_pcount = 4;
  remote_rkey = 7;
  dma_rkey = 9;
}

-- Node 0 leads to node 1, node 1 to node 0.
abbrev net_0 : Net
net_0 = record { total_cb = 1; remotenode_id = λ i. 1; peer = λ i. some_peer; post = λ wr. pos 0 }

abbrev net_1 : Net
net_1 = record { total_cb = 1; remotenode_id = λ i. 0; peer = λ i. some_peer; post = λ wr. pos 0 }

abbrev node_0 : Node
node_0 = record { node_id = 0; refill = 7; buddy = some_free; free_group = λ i. nothing_lent }

abbrev node_1 : Node
node_1 = record { node_id = 1; refill = 7; buddy = memory; free_group = λ i. nothing_lent }

-- Node 1 asks node 0 for pages.
request-Lent_example :
    (reply : Reply) × ((do_work net_0 true node_0 (page_rqst 1)).1 ≡ some (1, page_rply reply))
    × Lent 1024 node_0 some_freed.lists nothing_lent
        (do_work net_0 true node_0 (page_rqst 1)).0
        (group_after net_1 node_1 0 reply)
unfolding id_to_cb
request-Lent_example =
    request-Lent 1024 node_0 some_freed.lists 1 net_0 net_1 node_1 0 some_freed.valid (omega arith)
      refl nothing_lent-IsValid

-- Pages 0 to 2 and page 9 come back to an allocator with no free page.
abbrev two_runs : List Slot
two_runs =
    record { page_no = pos 0; count = 3 }
    ∷ record { page_no = minus_one; count = 0 }
    ∷ record { page_no = pos 9; count = 1 }
    ∷ []

abbrev full_node : Node
full_node = record node_0 { buddy = init_pages (init_areas memory max_order 0) 1024 0 }

abbrev sizes : Sizes
sizes = record { total_nodes = 2; total_pages = 4096; total_write_out = 256; total_read_in = 64 }

page_wrte-Posted_example :
    let wr =
      request some_peer rdma_write
        (get_write_out_buff sizes 0 3)
        (remote_page_offset sizes 40)
        (2 * page_size) in
    comex_rdma net_0
      (remote_shift_offset sizes)
      0
      (λ j. no_page)
      (page_wrte (flush_address sizes 0 3 40 2))
    ≡ record {
      message = none;
      posted = some wr;
      buff = if net_0.post wr ==ℤ pos 0 then free_buff (λ j. no_page) 3 2 else (λ j. no_page);
    }
unfolding remote_page_offset
page_wrte-Posted_example =
    page_wrte-Posted sizes 4 net_0 0 (λ j. no_page) 3 40 2 refl (omega arith) (omega arith)
      (omega arith)

-- Rings of 1000 slots do not fit into pieces.
abbrev large_rings : Sizes
large_rings = record sizes { total_write_out = 1000 }

page_wrte-stuck_example :
    comex_rdma net_0
      (remote_shift_offset large_rings)
      1
      (λ j. no_page)
      (page_wrte (flush_address large_rings 1 23 40 2))
    ≡ record { message = none; posted = none; buff = λ j. no_page }
unfolding get_write_out_buff
page_wrte-stuck_example =
    page_wrte-stuck large_rings net_0 1 (λ j. no_page) 23 40 2 (λ e. omega arith)
