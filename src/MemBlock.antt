-- ===== src/MemBlock.antt =====
-- The memory blocks of include/mem_block.h and src/mem_block.c.
pub mod Gather
mod Tests
use h.Base.{
  ℕ, ◌+◌, ◌-◌, ◌%◌, Bool, Option, none, some, List, [], ◌∷◌, ◌++◌, ◌==◌, ltb, leb, if◌then◌else◌,
  copy_at, take, drop, length,
}
use h.Base.Words.{add_u32, sub_u32}

-- `struct __mem_block` without its links: `bytes` is the memory at `ptr`.
pub record MemBlock : Type 0 where
  pub bytes : List ℕ
  pub seq : ℕ
  pub flags : ℕ
  pub offset : ℕ
  pub size : ℕ
  pub b_size : ℕ

-- `MEMBLOCK_DROPABLE`: the lowest bit of the flags.
abbrev pub is_dropable : MemBlock → Bool
is_dropable mb = mb.flags % 2 == 1

-- The bytes of a block from its offset on.
abbrev pub rest : MemBlock → List ℕ
rest mb = take (mb.size - mb.offset) (drop mb.offset mb.bytes)

abbrev pub max_cache_count : ℕ
max_cache_count = 128

abbrev pub max_gather_mem : ℕ
max_gather_mem = 65536

-- The cache of blocks, which are numbers; 0 is NULL. `released` went to `free`, the latest first.
pub record Cache : Type 0 where
  pub cache_heads : List ℕ
  pub cache_counts : ℕ
  pub released : List ℕ

-- `alloc_memblock`, with what `malloc` would return; `none` follows a link that is not there.
pub alloc_memblock : ℕ → Cache → Option (ℕ × Cache)
alloc_memblock fresh c =
    if ltb 0 c.cache_counts
    then elim c.cache_heads [
      | [] ↦ none
      | mb ∷ l ↦ some (mb, record c { cache_heads = l; cache_counts = sub_u32 c.cache_counts 1 })
    ]
    else some (fresh, c)

-- `_free_memblock`, which follows the block's `finalize`.
pub free_memblock : ℕ → Cache → Cache
free_memblock mb c =
    if ltb c.cache_counts max_cache_count
    then record c { cache_heads = mb ∷ c.cache_heads; cache_counts = add_u32 c.cache_counts 1 }
    else record c { released = mb ∷ c.released }

-- `alloc_gather_memblock`, with the bytes that `malloc` returned and what the block held before, each
-- `none` for NULL. The flags stay those of before.
pub alloc_gather_memblock : ℕ → Option (List ℕ) → Option MemBlock → Option MemBlock
alloc_gather_memblock size (some bytes) (some mb) =
    if ltb max_gather_mem size
    then none
    else some (record mb { bytes = bytes; seq = 0; offset = 0; size = 0; b_size = size })
alloc_gather_memblock size (some bytes) none = none
alloc_gather_memblock size none mb = none

-- `gather_memblock`
pub gather_memblock : MemBlock → MemBlock → Option MemBlock
gather_memblock gather mb =
    if leb (sub_u32 mb.size mb.offset) (sub_u32 gather.b_size gather.size)
    then some (record gather {
      bytes =
          copy_at gather.size (take (sub_u32 mb.size mb.offset) (drop mb.offset mb.bytes))
            gather.bytes;
      size = add_u32 gather.size (sub_u32 mb.size mb.offset);
      seq = mb.seq;
    })
    else none
