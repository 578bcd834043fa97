-- ===== src/Trace/Overrun.antt =====
-- What a write without room does, and two threads whose looks at the room come before both writes.
use h.Base.{
  ℕ, ◌+◌, ◌%◌, ◌≤◌, ◌<◌, ◌≡◌, refl, ap, ◌∙◌, inl, inr, true, Bool-cases, List, [], append-nil,
  length, take, drop, drop-length, copy_at, length-append, length-drop, length-copy_at, ltb, arith,
}
use mathlib.Core.Path.{subst}
use h.Base.Words.{add_u32, sub_u32}
use h.Trace.{Ring, get_free_space, advance_write, ring_write}
use h.Trace.Valid.{Turn, same, ahead, IsValid, contents, contents-ahead, spaces_lem}
use h.Trace.Write.{
  flat, round, ring_write-flat, ring_write-round, free-same, free-ahead, ring_write_lem,
}

flat-overrun :
    (b : Ring) (m : List ℕ)
    → IsValid b
    → b.write_reverse ≡ add_u32 b.read_reverse 1
    → b.read_pos < b.write_pos + length m
    → ¬ (Turn (flat b m))
unfolding flat
flat-overrun b m v e over (same f le) = ground (arith, v.turns)
flat-overrun b m v e over (ahead f le) = omega arith

round-overrun :
    (b : Ring) (m : List ℕ)
    → IsValid b
    → b.write_reverse ≡ b.read_reverse
    → b.size + b.read_pos < b.write_pos + length m
    → ¬ (Turn (round b m))
unfolding round
round-overrun b m v e over (same f le) = ground (arith, v.turns)
round-overrun b m v e over (ahead f le) = omega arith

lapped :
    (b : Ring) (m : List ℕ)
    → IsValid b
    → b.write_reverse ≡ add_u32 b.read_reverse 1
    → ¬ (Turn (round b m))
unfolding round
lapped b m v e (same f le) = ground (arith, v.turns)
lapped b m v e (ahead f le) = ground (arith, v.turns)

overrun :
    (b : Ring) (m : List ℕ)
    → IsValid b
    → Turn b
    → length m < b.size
    → get_free_space b < length m
    → ¬ (Turn (ring_write b m))
overrun b m v (same e le) short full turn =
    let free = free-same b v e in
    let over : b.size + b.read_pos < b.write_pos + length m = omega (arith, free, v.write_in) in
    round-overrun b m v e over
      (subst Turn (ring_write-round b m v (omega (arith, over)) short) turn)
overrun b m v (ahead e le) short full turn =
    let free = free-ahead b v e le in
    elim (Bool-cases (ltb b.size (b.write_pos + length m))) [
      | inl over ↦ lapped b m v e (subst Turn (ring_write-round b m v (ground arith) short) turn)
      | inr inside ↦
          flat-overrun b m v e (omega (arith, free, le))
            (subst Turn (ring_write-flat b m v (ground arith)) turn)
    ]

-- `async_ring_buf_write` looks at the room and writes in two holds of the lock. Where two threads see
-- room for a string each before either writes, and there is no room for both strings, the two writes
-- leave the ring invalid.
pub write_race_lem :
    (b : Ring) (m n : List ℕ)
    → IsValid b
    → length m < b.size
    → length n < b.size
    → length m ≤ get_free_space b
    → length n ≤ get_free_space b
    → get_free_space b < length m + length n
    → ¬ (IsValid (ring_write (ring_write b m) n))
write_race_lem b m n v short_m short_n room_m room_n full after =
    let (valid, held, size) = ring_write_lem b m v short_m room_m in
    let before = spaces_lem b v in
    let between = spaces_lem (ring_write b m) valid in
    overrun (ring_write b m) n valid valid.turn (omega (arith, size))
      (omega (
        arith,
        size,
        before.0,
        before.1,
        between.0,
        between.1,
        ap length held,
        length-append (contents b) m,
      ))
      after.turn

-- The ring behind such a write.
turned_over : Ring → List ℕ → Ring
turned_over b m = record b {
  start = copy_at 0 (drop 0 m) (copy_at b.write_pos (take 0 m) b.start);
  write_pos = 0;
  write_reverse = add_u32 b.write_reverse 1;
}

ring_write-turned_over :
    (b : Ring) (m : List ℕ)
    → IsValid b
    → b.write_pos ≡ b.size
    → length m ≡ b.size
    → ring_write b m ≡ turned_over b m
unfolding ring_write advance_write turned_over
ring_write-turned_over b m v at_end whole =
    let outside : ltb b.size (b.write_pos + length m) ≡ true = ground (arith, v.some_room) in
    let pos : add_u32 b.write_pos (length m) ≡ b.write_pos + length m =
      omega (arith, v.small, v.write_in) in
    let turned : (b.write_pos + length m) % b.size ≡ 0 = grind (arith, v.some_room) in
    let tail : sub_u32 b.size b.write_pos ≡ 0 = omega (arith, v.small) in
    rw outside (rw pos (rw outside (rw (turned, tail) refl)))

turned_over-storage :
    (b : Ring) (m : List ℕ)
    → IsValid b
    → b.write_pos ≡ b.size
    → length m ≡ b.size
    → length (turned_over b m).start ≡ b.size
unfolding turned_over
turned_over-storage b m v at_end whole =
    let kept : length (copy_at b.write_pos (take 0 m) b.start) ≡ b.size =
      length-copy_at b.write_pos (take 0 m) b.start (omega (arith, v.storage)) ∙ v.storage in
    length-copy_at 0 (drop 0 m) (copy_at b.write_pos (take 0 m) b.start)
      (omega (arith, kept, length-drop 0 m))
    ∙ kept

-- A string as long as the ring, written into a ring whose two positions stand at the end of the
-- memory in the same turn, finds room and is lost: the ring holds nothing behind the write.
pub write_whole-lost :
    (b : Ring) (m : List ℕ)
    → IsValid b
    → b.write_reverse ≡ b.read_reverse
    → b.read_pos ≡ b.size
    → b.write_pos ≡ b.size
    → length m ≡ b.size
    → (length m ≤ get_free_space b) × (contents (ring_write b m) ≡ [])
unfolding turned_over
write_whole-lost b m v e at_end_read at_end whole = (
  omega (arith, free-same b v e),
  ap contents (ring_write-turned_over b m v at_end whole)
      ∙ contents-ahead (turned_over b m) v.turns (ap (λ n. add_u32 n 1) e)
      ∙ append-nil (drop b.read_pos (turned_over b m).start)
      ∙ drop-length b.read_pos (turned_over b m).start
          (omega (arith, turned_over-storage b m v at_end whole)),
)
