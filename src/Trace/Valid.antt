-- ===== src/Trace/Valid.antt =====
-- What the ring promises, and the bytes that it holds.
use h.Base.{
  ℕ, zero, suc, ◌+◌, ◌≤◌, ◌<◌, ◌≡◌, refl, List, [], ◌++◌, length, take, drop, ◌==◌, if◌then◌else◌,
  arith, length-take, length-drop, length-append,
}
use h.Base.Words.{u32_mod, add_u32}
use h.Trace.{Ring, zeros, empty_ring, get_free_space, get_used_space}

-- The reader and the writer in one turn of the ring, or the writer one turn ahead.
pub data Turn (b : Ring) : Type 0 where
  same : b.write_reverse ≡ b.read_reverse → b.read_pos ≤ b.write_pos → Turn b
  ahead : b.write_reverse ≡ add_u32 b.read_reverse 1 → b.write_pos ≤ b.read_pos → Turn b

pub record IsValid (b : Ring) : Type 0 where
  pub storage : length b.start ≡ b.size
  pub some_room : 0 < b.size
  pub small : b.size + b.size < u32_mod
  pub read_in : b.read_pos ≤ b.size
  pub write_in : b.write_pos ≤ b.size
  pub turns : b.read_reverse < u32_mod
  pub turn : Turn b

-- The bytes written and not read yet, in their order.
unfoldable pub contents : Ring → List ℕ
contents b =
    if b.read_reverse == b.write_reverse
    then drop b.read_pos (take b.write_pos b.start)
    else drop b.read_pos b.start ++ take b.write_pos b.start

pub contents-same :
    (b : Ring)
    → b.write_reverse ≡ b.read_reverse
    → contents b ≡ drop b.read_pos (take b.write_pos b.start)
unfolding contents
contents-same b e = ground arith

pub contents-ahead :
    (b : Ring)
    → b.read_reverse < u32_mod
    → b.write_reverse ≡ add_u32 b.read_reverse 1
    → contents b ≡ drop b.read_pos b.start ++ take b.write_pos b.start
unfolding contents
contents-ahead b small e = ground arith

-- The accounts of a ring: the space used is the number of bytes held, and it makes up the size with
-- the free space.
spaces :
    (b : Ring)
    → IsValid b
    → Turn b
    → (get_used_space b ≡ length (contents b)) × (get_used_space b + get_free_space b ≡ b.size)
unfolding get_used_space get_free_space
spaces b v (same e le) = rw (contents-same b e) (
  ground (
    arith,
    v.write_in,
    v.small,
    v.storage,
    length-drop b.read_pos (take b.write_pos b.start),
    length-take b.write_pos b.start,
  ),
  ground (arith, v.write_in, v.small),
)
spaces b v (ahead e le) = rw (contents-ahead b v.turns e) (
  ground (
    arith,
    v.read_in,
    v.small,
    v.storage,
    v.turns,
    length-append (drop b.read_pos b.start) (take b.write_pos b.start),
    length-drop b.read_pos b.start,
    length-take b.write_pos b.start,
  ),
  ground (arith, v.read_in, v.turns, v.small),
)

pub spaces_lem :
    (b : Ring)
    → IsValid b
    → (get_used_space b ≡ length (contents b)) × (get_used_space b + get_free_space b ≡ b.size)
spaces_lem b v = spaces b v v.turn

pub length-zeros : (n : ℕ) → length (zeros n) ≡ n
length-zeros zero = refl
length-zeros (suc n) = omega (arith, length-zeros n)

-- A new ring is valid and empty.
pub empty_ring-IsValid :
    (size : ℕ)
    → 0 < size
    → size + size < u32_mod
    → IsValid (empty_ring size) × (contents (empty_ring size) ≡ [])
unfolding contents
empty_ring-IsValid size pos small = (
  record {
    storage = length-zeros size;
    some_room = pos;
    small = small;
    read_in = omega arith;
    write_in = omega arith;
    turns = omega arith;
    turn = same refl (omega arith);
  },
  refl,
)
