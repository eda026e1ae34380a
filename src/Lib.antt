-- ===== src/Lib.antt =====
-- COMEX: the page pool that a cluster's nodes share for swapping, and its exchange over RDMA.
--
-- A node swaps a page out either to its own pool or to pages that another node has lent. Its pool
-- is given out by a buddy allocator (Kernel Modification/comex_buddy.h). Another node asks for pages
-- by a message, gets a block of them from the allocator and keeps the lent pages in a list per node
-- (comex_remote.h). A page that goes out waits in a ring of write-out slots until the ring is flushed
-- in one RDMA transfer. Pages that are no longer needed are gathered in an array per node and sent
-- back in one message, whose handler (krpingTrimmed/COMEX_module_lib.h) gives them to the allocator.
--
-- Which module is about which part:
--   Base       numbers, tests, lists, arrays as functions, C's int, bit masks
--   Buddy      comex_buddy.h: COMEX_rmqueue_smallest is `rmqueue_smallest`, COMEX_free_page is
--              `free_page`, COMEX_expand is `expand`, COMEX_checkCtr is `check_ctr`. Buddy.Links has
--              the circular lists as `next` and `prev` on addresses: 0 to 10 are the heads of the 11
--              orders, 11 + i is page i's entry. Buddy.Links.Ring says what a list is, Buddy.Blocks
--              which pages the lists cover, Buddy.Shape how lists, marks and counts agree, Buddy.Valid
--              puts this together as the invariant. Buddy.Alloc is about allocation, Buddy.Release
--              about release, Buddy.Counters about the use counters.
--   Init       Kernel Modification/comex_lib.h, COMEX_init_ENV: how the pool is filled
--   Remote     comex_lib.h, COMEX_init_Remote: the arrays for the other nodes, which FreeGroup, WriteOut,
--              ReadIn and FreeBatch work on
--   Layout     where slots and pages lie in a node's memory
--   FreeGroup  COMEX_page_receive and COMEX_freelist_getpage
--   FreeBatch  clean_free_struct and COMEX_free_to_remote
--   Reclaim    COMEX_do_work, its PAGE_FREE branch
--   WriteOut   COMEX_flush_buff, COMEX_free_buff and COMEX_read_from_buffer, with the RDMA write, and
--              whether do_write returns 0 for it, as arguments; WriteOut.View has what a reader sees,
--              WriteOut.Failed what is left when do_write fails
--   ReadIn     COMEX_read_from_preFetch, COMEX_read_from_remote and COMEX_void_preFetch, with the RDMA
--              read, and whether do_read returns 0 for it, as arguments
--   Lend       COMEX_pages_request
--   Local      COMEX_move_to_COMEX and COMEX_read_from_local
--   Outgoing   COMEX_hash and COMEX_move_to_Remote, with flushes by WriteOut and pages from FreeGroup
--   Dispatch   krpingTrimmed/COMEX_module_lib.h: COMEX_RDMA_fn is `comex_rdma`, COMEX_do_verb is
--              `do_verb`, COMEX_do_work is `do_work`. Dispatch.Lending has a request and its reply
--              through two nodes, Dispatch.Sending the transfer of a run of write-out slots.
--   Transport  krpingTrimmed/krping.c: regis_bigspace, translate_useraddr, do_read and do_write, with
--              kmalloc and the posting of a work request as arguments
--   Connection krpingTrimmed/krping.c: the handlers of a connection's events and completions, with the
--              queued messages going to Dispatch; also krping_accept and
--              do_read_bufferptr. Connection.Slots has universal_send, Connection.Setup
--              krping_setup_qp, and Connection.Life the thread krping_run_all with the functions that
--              it calls, and winddown_cb, Connection.Requests krping_setup_wr. Pointers to
--              resources say whether they still hold.
--   Start      krpingTrimmed/krping.c: the options and the allocations of krping_doit, and
--              krping_write_proc, with the options parsed by Getopt
--   Getopt     krpingTrimmed/getopt.c: krping_getopt
--   Rmap       Kernel Modification/comex_util.h: whose page it is, and the sum of its bytes
--   Swap       Kernel Modification/swap_state.c: the swap cache, add_to_swap (Swap.Out) and
--              read_swap_cache_async, swapin_readahead and zap_pte_range's hook (Swap.In). Swap.Out
--              calls Local and Outgoing, Swap.In calls Local, WriteOut, ReadIn, FreeBatch and Buddy.
--              Swap.Devices has the maps of the swap devices of Kernel Modification/swapfile.c, where
--              __swap_duplicate is `swap_duplicate_once`, and Swap.Fault do_swap_page of
--              Kernel Modification/memory.c with both of them; Swap.Free has free_swap_cache,
--              free_page_and_swap_cache and free_swap_and_cache. Swap.Pageout has pageout of
--              Kernel Modification/vmscan.c and set_page_dirty of page-writeback.c.
-- The modules named Tests apply the theorems to small states.
--
-- Conventions. Operations that run under a lock are one step each. An int that the code keeps small
-- is a number or an integer with no wrap-around; masks and shifts are written out. A loop with a
-- counter is recursion on the rounds that are left. `drain` has fuel, one round more than there are
-- pages, which is enough since a round takes a free page. `free_run` has fuel, the count of its run,
-- which is enough since a round takes a page at least. `option_loop` has fuel, which is enough above
-- the length of the text, since a round takes a character at least. The invariant of the allocator asks that the
-- number of pages is a multiple of 1024: else COMEX_free_page reads past the end of COMEX_Buddy_page.
-- The contents of pages and the memory of other nodes are arguments, with the laws of an RDMA
-- transfer as records (WriteOut.Verbs, ReadIn.Reads). These also say for which transfers do_write and do_read
-- return 0; Transport has their checks, and Dispatch.Sending what they do to a run of slots.
--
-- In Swap the entries, the radix trees and the results of the kernel's calls are arguments, and so are,
-- in Swap.Out and Swap.In, the other swap devices; Swap.In.read_rounds takes what these calls give in each round of its loop as a list.
--
-- Not modelled: the verbs library that krpingTrimmed/krping.c calls, the waits of its threads for each
-- other, the rest of the Linux files, krpinga.c, which is an earlier state of krping.c, the script that writes the configuration, and what only prints.
pub mod Base
pub mod Buddy
pub mod Init
pub mod Layout
pub mod FreeGroup
pub mod Reclaim
pub mod FreeBatch
pub mod WriteOut
pub mod ReadIn
pub mod Lend
pub mod Local
pub mod Transport
pub mod Dispatch
pub mod Outgoing
pub mod Rmap
pub mod Swap
pub mod Connection
pub mod Getopt
pub mod Remote
pub mod Start
