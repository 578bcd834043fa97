-- ===== src/Trace/Read/Pieces.antt =====
-- The three ways in which `async_ring_buf_read` of src/trace.c copies.
use h.Base.{
  ℕ, ◌+◌, ◌-◌, ◌≤◌, ◌<◌, ◌%◌, ◌≡◌, refl, sym, ap, ◌∙◌, inl, inr, true, false, Bool-cases, List,
  ◌++◌, append-nil, length, take, drop, take-past, drop-past, ap₂, ltb, arith, length-drop,
  take-append, take-length, drop-append, drop-drop,
}
use h.Base.Words.{add_u32, sub_u32}
use h.Trace.{Ring, strncpy, advance_read}
use h.Trace.Valid.{same, ahead, IsValid, contents, contents-same, contents-ahead}
use h.Trace.Strings.{NoZero, NoZero-take, NoZero-front, NoZero-back, strncpy_lem}
use h.Trace.Read.Cuts.{take-drop-take}

-- A read that stays before the end of the memory, and one that goes round it.
flat : Ring → ℕ → Ring
flat b n = record b { read_pos = b.read_pos + n }

round : Ring → ℕ → Ring
round b n = record b { read_pos = b.read_pos + n - b.size; read_reverse = add_u32 b.read_reverse 1 }

advance_read-flat :
    (b : Ring) (n : ℕ) → IsValid b → b.read_pos + n ≤ b.size → advance_read b n ≡ flat b n
unfolding advance_read flat
advance_read-flat b n v le =
    let pos : add_u32 b.read_pos n ≡ b.read_pos + n = omega (arith, v.small) in
    let inside : ltb b.size (b.read_pos + n) ≡ false = ground arith in rw pos (rw inside refl)

advance_read-round :
    (b : Ring) (n : ℕ)
    → IsValid b
    → b.size < b.read_pos + n
    → b.read_pos + n < b.size + b.size
    → advance_read b n ≡ round b n
unfolding advance_read round
advance_read-round b n v over short =
    let pos : add_u32 b.read_pos n ≡ b.read_pos + n = omega (arith, v.small) in
    let outside : ltb b.size (b.read_pos + n) ≡ true = ground arith in
    let turned : (b.read_pos + n) % b.size ≡ b.read_pos + n - b.size = grind arith in
    rw pos (rw outside (rw turned refl))

-- What a read of `n` bytes does: it gives the oldest ones, as many as there are.
pub record Reads (b : Ring) (n : ℕ) (r : List ℕ × Ring) : Type 0 where
  pub bytes : r.0 ≡ take n (contents b)
  pub left : contents r.1 ≡ drop n (contents b)
  pub valid : IsValid r.1
  pub size : r.1.size ≡ b.size

pub read-same :
    (b : Ring) (n : ℕ)
    → IsValid b
    → b.write_reverse ≡ b.read_reverse
    → b.read_pos ≤ b.write_pos
    → n ≤ b.write_pos - b.read_pos
    → NoZero (contents b)
    → Reads b n (strncpy n (drop b.read_pos b.start), advance_read b n)
unfolding flat
read-same b n v e le short z =
    let cut : take n (drop b.read_pos b.start) ≡ take n (contents b) =
      take-drop-take n b.read_pos b.write_pos b.start (omega arith)
        (omega (arith, v.storage, v.write_in))
      ∙ ap (take n) (sym (contents-same b e)) in
    let inside : b.read_pos + n ≤ b.size = omega (arith, v.write_in) in
    rw (advance_read-flat b n v inside) (record {
      bytes =
          strncpy_lem n (drop b.read_pos b.start)
            (omega (arith, length-drop b.read_pos b.start, v.storage))
            (rw cut (NoZero-take n (contents b) z))
          ∙ cut;
      left =
          contents-same (flat b n) e
          ∙ sym (drop-drop n b.read_pos (take b.write_pos b.start))
          ∙ ap (drop n) (sym (contents-same b e));
      valid = record {
        storage = v.storage;
        some_room = v.some_room;
        small = v.small;
        read_in = inside;
        write_in = v.write_in;
        turns = v.turns;
        turn = same e (omega arith);
      };
      size = refl;
    })

pub read-flat :
    (b : Ring) (n : ℕ)
    → IsValid b
    → b.write_reverse ≡ add_u32 b.read_reverse 1
    → b.write_pos ≤ b.read_pos
    → n ≤ b.size - b.read_pos
    → NoZero (contents b)
    → Reads b n (strncpy n (drop b.read_pos b.start), advance_read b n)
unfolding flat
read-flat b n v e le short z =
    let room = length-drop b.read_pos b.start in
    let whole = contents-ahead b v.turns e in
    let cut : take n (drop b.read_pos b.start) ≡ take n (contents b) =
      sym (
        take-append n (drop b.read_pos b.start) (take b.write_pos b.start)
          (omega (arith, room, v.storage)))
      ∙ ap (take n) (sym whole) in
    let inside : b.read_pos + n ≤ b.size = omega (arith, v.read_in) in
    rw (advance_read-flat b n v inside) (record {
      bytes =
          strncpy_lem n (drop b.read_pos b.start) (omega (arith, room, v.storage))
            (rw cut (NoZero-take n (contents b) z))
          ∙ cut;
      left =
          contents-ahead (flat b n) v.turns e
          ∙ ap (λ r. r ++ take b.write_pos b.start) (sym (drop-drop n b.read_pos b.start))
          ∙ sym (
              drop-append n (drop b.read_pos b.start) (take b.write_pos b.start)
                (omega (arith, room, v.storage)))
          ∙ ap (drop n) (sym whole);
      valid = record {
        storage = v.storage;
        some_room = v.some_room;
        small = v.small;
        read_in = inside;
        write_in = v.write_in;
        turns = v.turns;
        turn = ahead e (omega arith);
      };
      size = refl;
    })

read-round :
    (b : Ring) (n : ℕ)
    → IsValid b
    → b.write_reverse ≡ add_u32 b.read_reverse 1
    → b.size < b.read_pos + n
    → b.read_pos + n ≤ b.size + b.write_pos
    → b.read_pos + n < b.size + b.size
    → NoZero (contents b)
    → Reads b n (
      strncpy (sub_u32 b.size b.read_pos) (drop b.read_pos b.start)
          ++ strncpy (add_u32 (sub_u32 n b.size) b.read_pos) b.start,
      advance_read b n,
    )
unfolding round
read-round b n v e over less short z =
    let whole = contents-ahead b v.turns e in
    let back = drop b.read_pos b.start in
    let front = take b.write_pos b.start in
    let room : length back ≡ b.size - b.read_pos =
      omega (arith, length-drop b.read_pos b.start, v.storage) in
    let tail : sub_u32 b.size b.read_pos ≡ length back = omega (arith, room, v.read_in, v.small) in
    let rest : add_u32 (sub_u32 n b.size) b.read_pos ≡ n - length back =
      omega (arith, room, v.read_in, v.small) in
    let apart : NoZero (back ++ front) = rw (← whole) z in
    let cut =
      take-drop-take (n - length back) 0 b.write_pos b.start (omega (arith, room, v.read_in))
        (omega (arith, v.storage, v.write_in)) in
    rw (advance_read-round b n v over short, tail, rest)
      (record {
        bytes =
            ap₂ (λ x y. x ++ y)
              (strncpy_lem (length back) back (omega arith)
                  (NoZero-take (length back) back (NoZero-front back front apart))
                ∙ take-length (length back) back (omega arith))
              (strncpy_lem (n - length back) b.start
                  (omega (arith, room, v.storage, v.read_in, v.write_in))
                  (rw cut (NoZero-take (n - length back) front (NoZero-back back front apart)))
                ∙ cut)
            ∙ sym (take-past n back front (omega (arith, room)))
            ∙ ap (take n) (sym whole);
        left =
            contents-same (round b n) e
            ∙ ap (λ k. drop k front) {x = b.read_pos + n - b.size} {y = n - length back}
                (omega (arith, room, v.read_in))
            ∙ sym (drop-past n back front (omega (arith, room)))
            ∙ ap (drop n) (sym whole);
        valid = record {
          storage = v.storage;
          some_room = v.some_room;
          small = v.small;
          read_in = omega arith;
          write_in = v.write_in;
          turns = omega arith;
          turn = same e (omega arith);
        };
        size = refl;
      })

-- A read that ends where the memory ends.
read-end :
    (b : Ring) (n : ℕ)
    → IsValid b
    → b.write_reverse ≡ add_u32 b.read_reverse 1
    → b.write_pos ≤ b.read_pos
    → n ≡ b.size - b.read_pos
    → NoZero (contents b)
    → Reads b n (
      strncpy (sub_u32 b.size b.read_pos) (drop b.read_pos b.start)
          ++ strncpy (add_u32 (sub_u32 n b.size) b.read_pos) b.start,
      advance_read b n,
    )
read-end b n v e le end z =
    let tail : sub_u32 b.size b.read_pos ≡ n = omega (arith, v.read_in, v.small) in
    let rest : add_u32 (sub_u32 n b.size) b.read_pos ≡ 0 = omega (arith, v.read_in, v.small) in
    rw (tail, rest, append-nil) (read-flat b n v e le (omega arith) z)

pub read-far :
    (b : Ring) (n : ℕ)
    → IsValid b
    → b.write_reverse ≡ add_u32 b.read_reverse 1
    → b.write_pos ≤ b.read_pos
    → b.size - b.read_pos ≤ n
    → n ≤ b.size - b.read_pos + b.write_pos
    → n < b.size
    → NoZero (contents b)
    → Reads b n (
      strncpy (sub_u32 b.size b.read_pos) (drop b.read_pos b.start)
          ++ strncpy (add_u32 (sub_u32 n b.size) b.read_pos) b.start,
      advance_read b n,
    )
read-far b n v e le far less short z = elim (Bool-cases (ltb b.size (b.read_pos + n))) [
  | inl over ↦
      read-round b n v e (ground arith) (omega (arith, v.read_in)) (omega (arith, v.read_in)) z
  | inr end ↦ read-end b n v e le (ground (arith, v.read_in)) z
]
