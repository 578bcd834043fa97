-- ===== src/Trace/Read.antt =====
-- `async_ring_buf_read` takes the oldest bytes, where none of them is zero.
mod Cuts
pub mod Pieces
use h.Base.{
  ℕ, zero, suc, ◌+◌, ◌-◌, ◌≤◌, ◌<◌, ◌%◌, min, ◌≡◌, ◌≢◌, refl, sym, ap, ◌∙◌, ◌⊎◌, inl, inr, Bool,
  true, false, Bool-cases, Option, none, some, List, [], ◌∷◌, ◌++◌, append_assoc, append-nil,
  length, take, drop, take-past, drop-past, ap₂, ◌==◌, ltb, leb, if◌then◌else◌, arith, length-take,
  length-drop, length-append, take-append, take-length, drop-length, drop-append, drop-drop,
  take-append-drop,
}
use h.Base.Words.{u32_mod, add_u32, sub_u32}
use h.Base.Yields.{Yields, yields}
use h.Trace.{Ring, get_used_space, strncpy, advance_read, ring_read}
use h.Trace.Valid.{Turn, same, ahead, IsValid, contents, contents-same, contents-ahead, spaces_lem}
use h.Trace.Strings.{NoZero, NoZero-take, NoZero-front, NoZero-back, strncpy_lem}
use h.Trace.Read.Cuts.{capped, take-capped, drop-capped, capped-le, take-drop-take}
use h.Trace.Read.Pieces.{Reads, read-same, read-flat, read-far}

Reads-capped :
    {b : Ring} {n : ℕ} {r : List ℕ × Ring}
    → get_used_space b ≡ length (contents b)
    → Reads b (capped n (get_used_space b)) r
    → Reads b n r
Reads-capped {b} {n} used reads = record {
  bytes = reads.bytes ∙ take-capped n (get_used_space b) (contents b) used;
  left = reads.left ∙ drop-capped n (get_used_space b) (contents b) used;
  valid = reads.valid;
  size = reads.size;
}

used-same :
    (b : Ring)
    → IsValid b
    → b.write_reverse ≡ b.read_reverse
    → b.read_pos ≤ b.write_pos
    → get_used_space b ≡ b.write_pos - b.read_pos
unfolding get_used_space
used-same b v e le = ground (arith, v.small, v.write_in)

used-ahead :
    (b : Ring)
    → IsValid b
    → b.write_reverse ≡ add_u32 b.read_reverse 1
    → get_used_space b ≡ b.size - b.read_pos + b.write_pos
unfolding get_used_space
used-ahead b v e = ground (arith, v.turns, v.small, v.read_in, v.write_in)

-- The whole read.
read-Turn :
    (b : Ring) (n : ℕ)
    → IsValid b
    → Turn b
    → n < b.size
    → NoZero (contents b)
    → Yields (Reads b n) (ring_read b n)
unfolding ring_read capped
read-Turn b n v (same e le) short z =
    let one_turn : (b.read_reverse == b.write_reverse) ≡ true = ground arith in
    let count = (spaces_lem b v).0 in
    let cap = capped-le n (get_used_space b) in
    rw one_turn (
      yields (
        Reads-capped count (
          read-same b (capped n (get_used_space b)) v e le (omega (arith, cap, used-same b v e le))
            z)))
read-Turn b n v (ahead e le) short z =
    let two_turns : (b.read_reverse == b.write_reverse) ≡ false = ground (arith, v.turns) in
    let next_turn : (sub_u32 b.write_reverse b.read_reverse == 1) ≡ true =
      ground (arith, v.turns) in
    let count = (spaces_lem b v).0 in
    let used = used-ahead b v e in
    let cap = capped-le n (get_used_space b) in
    let tail : sub_u32 b.size b.read_pos ≡ b.size - b.read_pos =
      omega (arith, v.read_in, v.small) in
    rw (two_turns, next_turn)
      (elim (Bool-cases (leb n (sub_u32 b.size b.read_pos))) [
        | inl near ↦ rw near (yields (read-flat b n v e le (ground (arith, tail)) z))
        | inr far ↦ rw far (
            yields (
              Reads-capped count (
                read-far b (capped n (get_used_space b)) v e le (ground (arith, tail, used))
                  (omega (arith, cap, used)) (omega (arith, cap)) z)))
      ])

-- On a valid ring that holds no zero, a read of fewer bytes than the ring has gives the oldest
-- bytes, as many as asked for or as there are, and leaves a valid ring that holds the others.
pub ring_read_lem :
    (b : Ring) (n : ℕ)
    → IsValid b
    → n < b.size
    → NoZero (contents b)
    → Yields (Reads b n) (ring_read b n)
ring_read_lem b n v short z = read-Turn b n v v.turn short z
