-- ===== src/MemBlock/Gather.antt =====
-- Gathering blocks into one, and the cache of blocks.
use h.Base.{
  copy_at, length-copy_at, Bool, ◌⊎◌, ℕ, ◌+◌, ◌-◌, ◌≤◌, ◌<◌, ◌≡◌, refl, sym, ap, ◌∙◌, Bool-cases,
  true, inl, inr, Option, none, some, List, ◌∷◌, ◌++◌, ltb, leb, take, drop, length,
  take-append-drop, length-append, length-take, length-drop, take-append, drop-append, take-length,
  arith, false, if◌then◌else◌,
}
use h.Base.Words.{u32_mod, add_u32, sub_u32}
use h.MemBlock.{
  MemBlock, rest, Cache, gather_memblock, alloc_memblock, free_memblock, max_cache_count,
}

-- A block whose counters lie in their order within its memory.
pub record IsBlock (mb : MemBlock) : Type 0 where
  pub started : mb.offset ≤ mb.size
  pub filled : mb.size ≤ mb.b_size
  pub room : mb.b_size ≡ length mb.bytes
  pub small : mb.b_size < u32_mod

-- The front of a list from an offset on.
rest-front :
    (o n : ℕ) (xs ys : List ℕ)
    → o ≤ length xs
    → n ≡ length xs
    → take (n - o) (drop o (xs ++ ys)) ≡ drop o xs
rest-front o n xs ys h same = rw (drop-append o xs ys h) (
    take-append (n - o) (drop o xs) ys (omega (arith, length-drop o xs))
    ∙ take-length (n - o) (drop o xs) (omega (arith, length-drop o xs)))

rest-take : (mb : MemBlock) → IsBlock mb → rest mb ≡ drop mb.offset (take mb.size mb.bytes)
rest-take mb v =
    let size = length-take mb.size mb.bytes in
    ap (λ r. take (mb.size - mb.offset) (drop mb.offset r))
      (sym (take-append-drop mb.size mb.bytes))
    ∙ rest-front mb.offset mb.size (take mb.size mb.bytes) (drop mb.size mb.bytes)
        (omega (arith, size, v.started, v.filled, v.room)) (omega (arith, size, v.filled, v.room))

rest-copy_at :
    (o n : ℕ) (from to : List ℕ)
    → o ≤ n
    → n ≤ length to
    → take ((n + length from) - o) (drop o (copy_at n from to)) ≡ drop o (take n to) ++ from
rest-copy_at o n from to started filled =
    let size = length-take n to in
    let both = length-append (take n to) from in
    rest-front o (n + length from) (take n to ++ from) (drop (n + length from) to)
      (omega (arith, size, both)) (omega (arith, size, both))
    ∙ drop-append o (take n to) from (omega (arith, size))

-- What `gather_memblock` gives back.
pub data Gathered (g mb : MemBlock) : Option MemBlock → Type 0 where
  too_big : g.b_size < g.size + (mb.size - mb.offset) → Gathered g mb none
  gathered :
      {g' : MemBlock}
      → rest g' ≡ rest g ++ rest mb
      → IsBlock g'
      → g'.seq ≡ mb.seq
      → Gathered g mb (some g')

-- `gather_memblock` of two blocks whose counters lie in order within their memory returns NULL
-- exactly when the bytes left of the second are more than the room of the first, and otherwise the
-- first with those bytes behind its own, such a block again, with the sequence number of the second.
pub gather_memblock_lem :
    (g mb : MemBlock) → IsBlock g → IsBlock mb → Gathered g mb (gather_memblock g mb)
unfolding gather_memblock
gather_memblock_lem g mb v w =
    let from = take (sub_u32 mb.size mb.offset) (drop mb.offset mb.bytes) in
    let left : sub_u32 mb.size mb.offset ≡ mb.size - mb.offset =
      omega (arith, w.started, w.filled, w.small) in
    let free : sub_u32 g.b_size g.size ≡ g.b_size - g.size = omega (arith, v.filled, v.small) in
    let copied : length from ≡ mb.size - mb.offset = omega (
      arith,
      left,
      length-take (sub_u32 mb.size mb.offset) (drop mb.offset mb.bytes),
      length-drop mb.offset mb.bytes,
      w.started,
      w.filled,
      w.room,
    ) in
    elim (Bool-cases (leb (sub_u32 mb.size mb.offset) (sub_u32 g.b_size g.size))) [
      | inr over ↦ rw over (too_big (ground (arith, left, free, v.filled)))
      | inl fits ↦
          let total : add_u32 g.size (sub_u32 mb.size mb.offset) ≡ g.size + length from =
            ground (arith, left, free, copied, v.filled, v.small) in
          rw fits (
            gathered
              (ap (λ n. take (n - g.offset) (drop g.offset (copy_at g.size from g.bytes))) total
                ∙ rest-copy_at g.offset g.size from g.bytes v.started
                    (omega (arith, v.filled, v.room))
                ∙ ap (λ r. r ++ from) (sym (rest-take g v))
                ∙ ap (λ n. rest g ++ take n (drop mb.offset mb.bytes)) left)
              (record {
                started = omega (arith, total, v.started);
                filled = ground (arith, total, copied, left, free, v.filled);
                room =
                    v.room
                    ∙ sym (
                        length-copy_at g.size from g.bytes
                          (ground (arith, copied, left, free, v.filled, v.room)));
                small = v.small;
              })
              refl)
    ]

-- The cache counts its blocks, of which there are at most 128.
pub record IsCache (c : Cache) : Type 0 where
  pub counted : c.cache_counts ≡ length c.cache_heads
  pub bounded : c.cache_counts ≤ max_cache_count

if-first : {A : Type 0} (x y : A) (b : Bool) → b ≡ true → (if b then x else y) ≡ x
if-first x y true h = refl
if-first x y false h = absurd (ground arith)

if-second : {A : Type 0} (x y : A) (b : Bool) → b ≡ false → (if b then x else y) ≡ y
if-second x y true h = absurd (ground arith)
if-second x y false h = refl

-- A block that the cache takes, and one that it does not.
abbrev cached : ℕ → Cache → Cache
cached mb c = record c { cache_heads = mb ∷ c.cache_heads; cache_counts = add_u32 c.cache_counts 1 }

free_memblock-cached :
    (mb : ℕ) (c : Cache) → c.cache_counts < max_cache_count → free_memblock mb c ≡ cached mb c
unfolding free_memblock
free_memblock-cached mb c h = if-first _ _ (ltb c.cache_counts max_cache_count) (ground arith)

free_memblock-full :
    (mb : ℕ) (c : Cache)
    → c.cache_counts ≡ max_cache_count
    → free_memblock mb c ≡ record c { released = mb ∷ c.released }
unfolding free_memblock
free_memblock-full mb c h = if-second _ _ (ltb c.cache_counts max_cache_count) (ground arith)

alloc_memblock-cached :
    (mb fresh : ℕ) (c : Cache)
    → c.cache_counts < max_cache_count
    → alloc_memblock fresh (cached mb c) ≡ some (mb, c)
unfolding alloc_memblock
alloc_memblock-cached mb fresh c h =
    let back : sub_u32 (add_u32 c.cache_counts 1) 1 ≡ c.cache_counts = omega arith in
    if-first _ _ (ltb 0 (add_u32 c.cache_counts 1)) (ground arith)
    ∙ ap (λ n. some (mb, record c { cache_counts = n })) back

free_memblock-IsCache :
    (mb : ℕ) (c : Cache)
    → IsCache c
    → (c.cache_counts < max_cache_count) ⊎ (c.cache_counts ≡ max_cache_count)
    → IsCache (free_memblock mb c)
free_memblock-IsCache mb c v (inl room) =
    rw (free_memblock-cached mb c room)
      (record { counted = omega (arith, v.counted); bounded = omega arith })
free_memblock-IsCache mb c v (inr full) =
    rw (free_memblock-full mb c full) (record { counted = v.counted; bounded = v.bounded })

-- On a cache that counts its blocks and holds at most 128, `free_memblock` leaves such a cache; with
-- fewer than 128 blocks the next `alloc_memblock` returns the block and the cache as it was, and with
-- 128 the block goes to `free`.
pub free_memblock_lem :
    (mb fresh : ℕ) (c : Cache)
    → IsCache c
    → IsCache (free_memblock mb c)
      × (c.cache_counts < max_cache_count
          → alloc_memblock fresh (free_memblock mb c) ≡ some (mb, c))
      × (c.cache_counts ≡ max_cache_count
          → free_memblock mb c ≡ record c { released = mb ∷ c.released })
free_memblock_lem mb fresh c v = (
  free_memblock-IsCache mb c v (ground (arith, v.bounded)),
  λ room.
      ap (λ r. alloc_memblock fresh r) (free_memblock-cached mb c room)
      ∙ alloc_memblock-cached mb fresh c room,
  λ full. free_memblock-full mb c full,
)
