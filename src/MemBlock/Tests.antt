-- ===== src/MemBlock/Tests.antt =====
-- Gathering two bytes, and a block that goes back to the cache.
use h.Base.{◌≡◌, ◌<◌, refl, some, [], ◌∷◌, arith}
use h.MemBlock.{MemBlock, Cache, gather_memblock, alloc_memblock, free_memblock, max_cache_count}
use h.MemBlock.Gather.{IsBlock, Gathered, gather_memblock_lem, IsCache, free_memblock_lem}

abbrev gather : MemBlock
gather = record { bytes = 1 ∷ 0 ∷ 0 ∷ 0 ∷ []; seq = 0; flags = 0; offset = 0; size = 1; b_size = 4 }

abbrev block : MemBlock
block = record { bytes = 5 ∷ 6 ∷ 7 ∷ []; seq = 9; flags = 0; offset = 1; size = 3; b_size = 3 }

gather-IsBlock : IsBlock gather
gather-IsBlock = record {
  started = omega arith;
  filled = omega arith;
  room = refl;
  small = omega arith;
}

block-IsBlock : IsBlock block
block-IsBlock = record {
  started = omega arith;
  filled = omega arith;
  room = refl;
  small = omega arith;
}

gather_runs :
    gather_memblock gather block
    ≡ some (record gather { bytes = 1 ∷ 6 ∷ 7 ∷ 0 ∷ []; seq = 9; size = 3 })
unfolding gather_memblock
gather_runs = refl

gather_memblock_lem_example : Gathered gather block (gather_memblock gather block)
gather_memblock_lem_example = gather_memblock_lem gather block gather-IsBlock block-IsBlock

abbrev cache : Cache
cache = record { cache_heads = 40 ∷ []; cache_counts = 1; released = [] }

free_memblock_lem_example :
    IsCache (free_memblock 41 cache)
    × (1 < max_cache_count → alloc_memblock 50 (free_memblock 41 cache) ≡ some (41, cache))
    × (1 ≡ max_cache_count → free_memblock 41 cache ≡ record cache { released = 41 ∷ [] })
free_memblock_lem_example =
    free_memblock_lem 41 50 cache (record { counted = refl; bounded = omega arith })
