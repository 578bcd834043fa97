-- ===== src/Trace.antt =====
-- src/trace.c: the ring buffer that trace lines go through. Each function runs under the ring's
-- lock; what happens between the locks is in System.
pub mod Valid
pub mod Write
pub mod Overrun
pub mod Line
pub mod Strings
pub mod Read
mod Tests
pub mod Print
pub mod System
use h.Base.{
  ℕ, zero, suc, ◌+◌, ◌-◌, ◌%◌, ◌<◌, ◌≤◌, Bool, true, false, Option, none, some, List, [], ◌∷◌, ◌++◌,
  ltb, leb, ◌==◌, if◌then◌else◌, length, take, drop, copy_at,
}
use h.Base.Words.{u32_mod, add_u32, sub_u32}

abbrev pub trace_line_max_size : ℕ
trace_line_max_size = 4096

-- `async_ring_buf_t`, with the memory at `start`.
pub record Ring : Type 0 where
  pub size : ℕ
  pub start : List ℕ
  pub read_pos : ℕ
  pub read_reverse : ℕ
  pub write_pos : ℕ
  pub write_reverse : ℕ

abbrev pub zeros : ℕ → List ℕ
zeros zero = []
zeros (suc n) = 0 ∷ zeros n

-- The ring of `async_ring_buf_new`.
abbrev pub empty_ring : ℕ → Ring
empty_ring size = record {
  size = size;
  start = zeros size;
  read_pos = 0;
  read_reverse = 0;
  write_pos = 0;
  write_reverse = 0;
}

-- `async_ring_buf_new`, with whether each of `calloc`, `calloc`, `malloc` and `pthread_create`
-- succeeds.
pub ring_new : ℕ → (ring start sem thread : Bool) → Option Ring
ring_new size true true true true = some (empty_ring size)
ring_new size _ _ _ _ = none

pub get_free_space : Ring → ℕ
get_free_space b =
    if b.read_reverse == b.write_reverse
    then add_u32 (sub_u32 b.size b.write_pos) b.read_pos
    else if sub_u32 b.write_reverse b.read_reverse == 1
    then sub_u32 b.read_pos b.write_pos
    else 0

pub get_used_space : Ring → ℕ
get_used_space b =
    if b.read_reverse == b.write_reverse
    then sub_u32 b.write_pos b.read_pos
    else if sub_u32 b.write_reverse b.read_reverse == 1
    then add_u32 (sub_u32 b.size b.read_pos) b.write_pos
    else b.size

-- `strncpy`, which pads with zeros behind a zero.
abbrev pub strncpy : ℕ → List ℕ → List ℕ
strncpy zero src = []
strncpy (suc n) [] = zeros (suc n)
strncpy (suc n) (c ∷ src) = if c == 0 then zeros (suc n) else c ∷ strncpy n src

-- The end of `async_ring_buf_read`, with the bytes read.
pub advance_read : Ring → ℕ → Ring
advance_read b n =
    let pos = add_u32 b.read_pos n in
    if ltb b.size pos
    then record b { read_pos = pos % b.size; read_reverse = add_u32 b.read_reverse 1 }
    else record b { read_pos = pos }

-- `async_ring_buf_read`: the bytes in `dest` and the ring. `none` is the `assert`.
pub ring_read : Ring → ℕ → Option (List ℕ × Ring)
ring_read b len =
    let used = get_used_space b in
    let n = if leb len used then len else used in
    let tail = sub_u32 b.size b.read_pos in
    if b.read_reverse == b.write_reverse
    then some (strncpy n (drop b.read_pos b.start), advance_read b n)
    else if sub_u32 b.write_reverse b.read_reverse == 1
    then if leb len tail
      then some (strncpy len (drop b.read_pos b.start), advance_read b len)
      else some (
        strncpy tail (drop b.read_pos b.start)
            ++ strncpy (add_u32 (sub_u32 n b.size) b.read_pos) b.start,
        advance_read b n,
      )
    else none

-- The end of `async_ring_buf_write`.
pub advance_write : Ring → ℕ → Ring
advance_write b n =
    let pos = add_u32 b.write_pos n in
    if ltb b.size pos
    then record b { write_pos = pos % b.size; write_reverse = add_u32 b.write_reverse 1 }
    else record b { write_pos = pos }

-- `async_ring_buf_write`, once it has seen room.
pub ring_write : Ring → List ℕ → Ring
ring_write b string =
    let tail = sub_u32 b.size b.write_pos in
    advance_write
      (record b {
        start =
            if ltb b.size (b.write_pos + length string)
            then copy_at 0 (drop tail string) (copy_at b.write_pos (take tail string) b.start)
            else copy_at b.write_pos string b.start;
      })
      (length string)

-- What the "%s" of `fprintf` prints of a string of bytes that ends with a zero.
abbrev pub printed : List ℕ → List ℕ
printed [] = []
printed (c ∷ s) = if c == 0 then [] else c ∷ printed s

-- A round of the loop of `trace_print_until_zero`: what it prints, `cycle`, and the ring.
abbrev pub after_read : Bool → Option (List ℕ × Ring) → Option (List ℕ × Bool × Ring)
after_read cycle none = none
after_read cycle (some (string, b)) = some (printed string, cycle, b)

pub print_round : Bool → Ring → Option (List ℕ × Bool × Ring)
print_round cycle b =
    let used = get_used_space b in
    if used == 0
    then some ([], cycle, b)
    else if ltb (trace_line_max_size - 1) used
    then after_read true (ring_read b (trace_line_max_size - 1))
    else after_read false (ring_read b used)

-- What follows a round: the loop's end, or what the other rounds print.
abbrev pub after_more : List ℕ → Option (List ℕ × Ring) → Option (List ℕ × Ring)
after_more out none = none
after_more out (some (more, b)) = some (out ++ more, b)

pub after_round :
    (again : Ring → Option (List ℕ × Ring)) → Option (List ℕ × Bool × Ring) → Option (List ℕ × Ring)
after_round again none = none
after_round again (some (out, false, b)) = some (out, b)
after_round again (some (out, true, b)) = after_more out (again b)

-- `trace_print_until_zero`: what it prints, and the ring. At the start `cycle` is whatever stands on
-- the stack. `none` is the `assert` or no end within the rounds.
pub print_until_zero : ℕ → Bool → Ring → Option (List ℕ × Ring)
unfolding after_round
print_until_zero zero cycle b = none
print_until_zero (suc rounds) cycle b =
    after_round (print_until_zero rounds true) (print_round cycle b)
