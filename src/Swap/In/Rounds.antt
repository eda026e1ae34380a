-- ===== src/Swap/In/Rounds.antt =====
-- How the loop of read_swap_cache_async ends.
