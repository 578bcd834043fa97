-- ===== src/Trace/Write.antt =====
-- `async_ring_buf_write` appends its string, where the ring has room.
use h.Base.{
  ℕ, ◌+◌, ◌-◌, ◌≤◌, ◌<◌, ◌%◌, ◌≡◌, refl, sym, ap, ◌∙◌, inl, inr, true, false, Bool-cases, List,
  ◌++◌, append_assoc, length, take, drop, copy_at, length-copy_at, take-copy_at, drop-copy_at, ltb,
  arith, length-take, length-drop, drop-append, take-length, take-append-drop,
}
use h.Base.Words.{add_u32, sub_u32}
use h.Trace.{Ring, get_free_space, advance_write, ring_write}
use h.Trace.Valid.{Turn, same, ahead, IsValid, contents, contents-same, contents-ahead}

-- A write that stays before the end of the memory, and one that goes round it.
unfoldable pub flat : Ring → List ℕ → Ring
flat b m = record b { start = copy_at b.write_pos m b.start; write_pos = b.write_pos + length m }

unfoldable pub round : Ring → List ℕ → Ring
round b m = record b {
  start =
      copy_at 0 (drop (b.size - b.write_pos) m)
        (copy_at b.write_pos (take (b.size - b.write_pos) m) b.start);
  write_pos = b.write_pos + length m - b.size;
  write_reverse = add_u32 b.write_reverse 1;
}

pub ring_write-flat :
    (b : Ring) (m : List ℕ)
    → IsValid b
    → b.write_pos + length m ≤ b.size
    → ring_write b m ≡ flat b m
unfolding ring_write advance_write flat
ring_write-flat b m v le =
    let inside : ltb b.size (b.write_pos + length m) ≡ false = ground arith in
    let pos : add_u32 b.write_pos (length m) ≡ b.write_pos + length m = omega (arith, v.small) in
    rw inside (rw pos (rw inside refl))

pub ring_write-round :
    (b : Ring) (m : List ℕ)
    → IsValid b
    → b.size < b.write_pos + length m
    → length m < b.size
    → ring_write b m ≡ round b m
unfolding ring_write advance_write round
ring_write-round b m v over short =
    let outside : ltb b.size (b.write_pos + length m) ≡ true = ground arith in
    let pos : add_u32 b.write_pos (length m) ≡ b.write_pos + length m =
      omega (arith, v.small, v.write_in) in
    let turned : (b.write_pos + length m) % b.size ≡ b.write_pos + length m - b.size =
      grind (arith, v.write_in) in
    let tail : sub_u32 b.size b.write_pos ≡ b.size - b.write_pos =
      omega (arith, v.write_in, v.small) in
    rw outside (rw pos (rw outside (rw (turned, tail) refl)))

-- A write leaves the ring valid and holding the string behind what it held.
abbrev Appends : Ring → List ℕ → Ring → Type 0
Appends b m b' = IsValid b' × (contents b' ≡ contents b ++ m) × (b'.size ≡ b.size)

flat-storage :
    (b : Ring) (m : List ℕ)
    → IsValid b
    → b.write_pos + length m ≤ b.size
    → length (flat b m).start ≡ b.size
unfolding flat
flat-storage b m v le = length-copy_at b.write_pos m b.start (omega (arith, v.storage)) ∙ v.storage

flat-same :
    (b : Ring) (m : List ℕ)
    → IsValid b
    → b.write_reverse ≡ b.read_reverse
    → b.read_pos ≤ b.write_pos
    → b.write_pos + length m ≤ b.size
    → Appends b m (flat b m)
unfolding flat
flat-same b m v e le fits = (
  record {
    storage = flat-storage b m v fits;
    some_room = v.some_room;
    small = v.small;
    read_in = v.read_in;
    write_in = fits;
    turns = v.turns;
    turn = same e (omega (arith, le));
  },
  contents-same (flat b m) e
      ∙ ap (drop b.read_pos)
          (take-copy_at b.write_pos m b.start (omega (arith, v.write_in, v.storage)))
      ∙ drop-append b.read_pos (take b.write_pos b.start) m
          (omega (arith, length-take b.write_pos b.start, v.write_in, v.storage))
      ∙ ap (λ r. r ++ m) (sym (contents-same b e)),
  refl,
)

flat-ahead :
    (b : Ring) (m : List ℕ)
    → IsValid b
    → b.write_reverse ≡ add_u32 b.read_reverse 1
    → b.write_pos + length m ≤ b.read_pos
    → Appends b m (flat b m)
unfolding flat
flat-ahead b m v e fits =
    let inside : b.write_pos ≤ length b.start = omega (arith, v.write_in, v.storage) in
    (
      record {
        storage = flat-storage b m v (omega (arith, v.read_in));
        some_room = v.some_room;
        small = v.small;
        read_in = v.read_in;
        write_in = omega (arith, v.read_in);
        turns = v.turns;
        turn = ahead e fits;
      },
      contents-ahead (flat b m) v.turns e
          ∙ ap (λ r. r ++ take (b.write_pos + length m) (copy_at b.write_pos m b.start))
              (drop-copy_at b.write_pos b.read_pos m b.start inside fits)
          ∙ ap (λ r. drop b.read_pos b.start ++ r) (take-copy_at b.write_pos m b.start inside)
          ∙ sym (append_assoc (drop b.read_pos b.start) (take b.write_pos b.start) m)
          ∙ ap (λ r. r ++ m) (sym (contents-ahead b v.turns e)),
      refl,
    )

round-same :
    (b : Ring) (m : List ℕ)
    → IsValid b
    → b.write_reverse ≡ b.read_reverse
    → b.read_pos ≤ b.write_pos
    → b.size < b.write_pos + length m
    → b.write_pos + length m ≤ b.size + b.read_pos
    → Appends b m (round b m)
unfolding round
round-same b m v e le over fits =
    let tail = b.size - b.write_pos in
    let front = copy_at b.write_pos (take tail m) b.start in
    let inside : b.write_pos ≤ length b.start = omega (arith, v.write_in, v.storage) in
    let first : length (take tail m) ≡ tail = omega (arith, length-take tail m, v.write_in) in
    let second : length (drop tail m) ≡ b.write_pos + length m - b.size =
      omega (arith, length-drop tail m, v.write_in) in
    let kept : length front ≡ b.size =
      length-copy_at b.write_pos (take tail m) b.start (omega (arith, first, v.storage, v.write_in))
      ∙ v.storage in
    let whole : front ≡ take b.write_pos b.start ++ take tail m =
      sym (take-length b.size front (omega (arith, kept)))
      ∙ ap (λ n. take n front) {x = b.size} {y = b.write_pos + length (take tail m)}
          (omega (arith, first, v.write_in))
      ∙ take-copy_at b.write_pos (take tail m) b.start inside in
    (
      record {
        storage =
            length-copy_at 0 (drop tail m) front (omega (arith, second, kept, v.read_in)) ∙ kept;
        some_room = v.some_room;
        small = v.small;
        read_in = v.read_in;
        write_in = omega (arith, v.read_in);
        turns = v.turns;
        turn = ahead (ap (λ n. add_u32 n 1) e) (omega arith);
      },
      contents-ahead (round b m) v.turns (ap (λ n. add_u32 n 1) e)
          ∙ ap (λ r. r ++ take (b.write_pos + length m - b.size) (copy_at 0 (drop tail m) front))
              (drop-copy_at 0 b.read_pos (drop tail m) front (omega arith) (omega (arith, second))
                ∙ ap (drop b.read_pos) whole
                ∙ drop-append b.read_pos (take b.write_pos b.start) (take tail m)
                    (omega (arith, length-take b.write_pos b.start, v.write_in, v.storage)))
          ∙ ap (λ r. (drop b.read_pos (take b.write_pos b.start) ++ take tail m) ++ r)
              (ap (λ n. take n (copy_at 0 (drop tail m) front))
                  {x = b.write_pos + length m - b.size} {y = 0 + length (drop tail m)}
                  (omega (arith, second))
                ∙ take-copy_at 0 (drop tail m) front (omega arith))
          ∙ append_assoc (drop b.read_pos (take b.write_pos b.start)) (take tail m) (drop tail m)
          ∙ ap (λ r. drop b.read_pos (take b.write_pos b.start) ++ r) (take-append-drop tail m)
          ∙ ap (λ r. r ++ m) (sym (contents-same b e)),
      refl,
    )

pub free-same :
    (b : Ring)
    → IsValid b
    → b.write_reverse ≡ b.read_reverse
    → get_free_space b ≡ b.size - b.write_pos + b.read_pos
unfolding get_free_space
free-same b v e = ground (arith, v.small, v.write_in, v.read_in)

pub free-ahead :
    (b : Ring)
    → IsValid b
    → b.write_reverse ≡ add_u32 b.read_reverse 1
    → b.write_pos ≤ b.read_pos
    → get_free_space b ≡ b.read_pos - b.write_pos
unfolding get_free_space
free-ahead b v e le = ground (arith, v.turns, v.small, v.read_in)

ring_write-Turn :
    (b : Ring) (m : List ℕ)
    → IsValid b
    → Turn b
    → length m < b.size
    → length m ≤ get_free_space b
    → Appends b m (ring_write b m)
ring_write-Turn b m v (same e le) short room =
    let free = free-same b v e in
    elim (Bool-cases (ltb b.size (b.write_pos + length m))) [
      | inl over ↦
          rw (ring_write-round b m v (ground arith) short)
            (round-same b m v e le (ground arith) (omega (arith, free, v.write_in)))
      | inr flat ↦ rw (ring_write-flat b m v (ground arith)) (flat-same b m v e le (ground arith))
    ]
ring_write-Turn b m v (ahead e le) short room =
    let free = free-ahead b v e le in
    rw (ring_write-flat b m v (omega (arith, free, le, v.read_in)))
      (flat-ahead b m v e (omega (arith, free, le)))

-- On a valid ring, a string shorter than the ring that finds room leaves a valid ring of the same
-- size, with the string behind the bytes that it held.
pub ring_write_lem :
    (b : Ring) (m : List ℕ)
    → IsValid b
    → length m < b.size
    → length m ≤ get_free_space b
    → IsValid (ring_write b m)
      × (contents (ring_write b m) ≡ contents b ++ m)
      × ((ring_write b m).size ≡ b.size)
ring_write_lem b m v short room = ring_write-Turn b m v v.turn short room
