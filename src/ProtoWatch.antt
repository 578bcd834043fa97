-- ===== src/ProtoWatch.antt =====
-- src/proto_watch.c: a connection's send queue and its event handler. A watch holds the block being
-- written and a backlog; `send` is a parameter.
pub mod Send
pub mod Valid
pub mod Continues
pub mod Pending
pub mod Window
pub mod Wrote
pub mod Write
pub mod Dispatch
mod Tests
use h.Base.{
  ℕ, zero, suc, ◌+◌, Bool, true, false, not, ◌&&◌, ◌||◌, Option, none, some, List, [], ◌∷◌, ◌++◌,
  ltb, leb, ◌==◌, if◌then◌else◌, take, drop, length,
}
use h.Base.Yields.{◌>>=◌}
use h.Base.Words.{add_u32, sub_u32}
use h.Errno.{Errno, eagain, einval, ekilled, eexist, eintr, Code, ok, minus, is_ok, is_eagain}
use h.MemBlock.{MemBlock, is_dropable}

abbrev pub max_backlog_size : ℕ
max_backlog_size = 65536

-- What `send` answers: the number of bytes taken, or the error left in `errno`.
pub data SendResult : Type 0 where
  sent : ℕ → SendResult
  failed : Errno → SendResult

-- A socket: the state that `send` works on, and the bytes it has taken so far, in order.
pub record Socket (Net : Type 0) : Type 0 where
  pub net : Net
  pub wire : List ℕ

-- `struct __proto_watch`, with the flag EV_WRITE of its event, the blocks that went through
-- `free_memblock`, and whether `watch_fd` is open.
pub record Watch (Net : Type 0) : Type 0 where
  pub socket : Socket Net
  pub is_open : Bool
  pub killed : Bool
  pub connecting : Bool
  pub window_size : ℕ
  pub sched : Option ℕ
  pub write_buffer : Option MemBlock
  pub backlog : List MemBlock
  pub backlog_size : ℕ
  pub ev_write : Bool
  pub freed : List MemBlock

abbrev pub is_none {ℓ} : {A : Type ℓ} → Option A → Bool
is_none none = true
is_none (some _) = false

abbrev pub is_empty : List MemBlock → Bool
is_empty [] = true
is_empty (_ ∷ _) = false

-- EINTR is reported as EAGAIN.
pub send_error : Errno → Code
send_error eintr = minus eagain
send_error e = minus e

-- The bytes that `send` is offered.
abbrev pub offered : MemBlock → ℕ → List ℕ
offered mb left = take left (drop mb.offset mb.bytes)

-- A block of the backlog with the blocks kept, freed, and the size left.
abbrev pub Adjusted : Type 0
Adjusted = List MemBlock × List MemBlock × ℕ

abbrev pub keep_in : MemBlock → Adjusted → Adjusted
keep_in mb (kept, freed, size) = (mb ∷ kept, freed, size)

abbrev pub free_from : MemBlock → Adjusted → Adjusted
free_from mb (kept, freed, size) = (kept, mb ∷ freed, size)

-- The walk of `proto_watch_adjust_window` over the backlog.
pub adjust_loop : ℕ → ℕ → List MemBlock → ℕ → Adjusted
adjust_loop seq window [] size = ([], [], size)
adjust_loop seq window (mb ∷ r) size = elim (is_dropable mb) [
  | false ↦ keep_in mb (adjust_loop seq window r size)
  | true ↦ elim (leb (sub_u32 seq mb.seq) window) [
    | true ↦ (mb ∷ r, [], size)
    | false ↦ free_from mb (adjust_loop seq window r (sub_u32 size mb.size))
  ]
]

module _ {Net : Type 0} where
  pub adjust_window : Watch Net → ℕ → Watch Net
  unfolding adjust_loop
  adjust_window w seq =
      if w.window_size == 0
      then w
      else (let (kept, dropped, size) = adjust_loop seq w.window_size w.backlog w.backlog_size in
          record w { backlog = kept; freed = dropped ++ w.freed; backlog_size = size })

  -- The block to go on with: the one being written, or the first of the backlog.
  pub next_block : Watch Net → Option (MemBlock × Watch Net)
  next_block w = elim w.write_buffer [
    | some mb ↦ some (mb, w)
    | none ↦ elim w.backlog [
      | [] ↦ none
      | mb ∷ r ↦ some (
        mb,
        record w {
          write_buffer = some mb;
          backlog = r;
          backlog_size = sub_u32 w.backlog_size mb.size;
        },
      )
    ]
  ]

  -- What follows `proto_watch_write_directly` in a round of `__proto_watch_write_pending`.
  abbrev pub keep_block : Watch Net → MemBlock → Socket Net → Watch Net
  keep_block w mb s = record w { socket = s; write_buffer = some mb }

  abbrev pub drop_block : Watch Net → MemBlock → Socket Net → Watch Net
  drop_block w mb s = record w { socket = s; write_buffer = none; freed = mb ∷ w.freed }

  -- `h6_ev_add_events(w, EV_WRITE)`
  abbrev pub add_write : Watch Net → Watch Net
  add_write w = record w { ev_write = true }

  -- The queueing half of `proto_watch_write_mb`.
  pub enqueue : Watch Net → MemBlock → Code × Watch Net
  enqueue w mb =
      let w' = adjust_window w mb.seq in
      if ltb max_backlog_size (add_u32 w'.backlog_size mb.size)
      then (minus eagain, record w' { freed = mb ∷ w'.freed })
      else (
        ok,
        record w' {
          backlog = w'.backlog ++ mb ∷ [];
          backlog_size = add_u32 w'.backlog_size mb.size;
          ev_write = true;
        },
      )

  -- What follows the direct write in `proto_watch_write_mb`.
  abbrev pub after_direct : Watch Net → Code × MemBlock × Socket Net → Code × Watch Net
  after_direct w (c, mb, s) =
      if is_eagain c
      then (ok, record w { socket = s; write_buffer = some mb; ev_write = true })
      else (c, record w { socket = s; freed = mb ∷ w.freed })

  -- 0 says that a block of this size is taken, or never will be.
  pub writeable : Watch Net → ℕ → Code
  writeable w size =
      if ltb max_backlog_size size
      then ok
      else if leb (add_u32 w.backlog_size size) max_backlog_size
      then ok
      else minus eagain

  -- `proto_watch_set_window` of a watch that is not NULL.
  unfoldable pub set_window : Watch Net → ℕ → Code × Watch Net
  set_window w win_size =
      if ltb 0 win_size then (ok, record w { window_size = win_size }) else (minus einval, w)

  -- `proto_watch_attach`; NULL is scheduler 0. The second part is the event given to the scheduler.
  pub attach : Watch Net → ℕ → Code × Watch Net × Bool
  attach w sched = if sched == 0 || w.killed then (minus einval, w, false) else elim w.sched [
    | some _ ↦ (minus eexist, w, false)
    | none ↦ (ok, record w { sched = some sched }, true)
  ]

  -- `proto_watch_kill`, with the scheduler that the event is taken from.
  unfoldable pub kill : Watch Net → Watch Net × Option ℕ
  kill w = if w.killed then (w, none) else (record w { killed = true; sched = none }, w.sched)

-- What a write returns, the block with its new offset, and the socket.
abbrev pub Progress : Type 0 → Type 0
Progress Net = Code × MemBlock × Socket Net

-- What the loop does with an answer of `send`; `again` is the rest of the loop.
pub after_send :
    {Net : Type 0}
    → (again : Socket Net → MemBlock → ℕ → Option (Progress Net)) → Socket Net
    → MemBlock
    → ℕ
    → SendResult × Net
    → Option (Progress Net)
after_send again s mb left (failed e, net) = some (send_error e, mb, record s { net = net })
after_send again s mb left (sent n, net) =
    if n == 0
    then some (minus eagain, mb, record s { net = net })
    else again (record { net = net; wire = s.wire ++ take n (offered mb left) })
        (record mb { offset = add_u32 mb.offset n }) (sub_u32 left n)

module _ {Net : Type 0} (send : Net → List ℕ → SendResult × Net) where
  -- The loop of `proto_watch_write_directly`; `none` says that the rounds ran out.
  pub write_loop : ℕ → Socket Net → MemBlock → ℕ → Option (Progress Net)
  unfolding after_send
  write_loop zero s mb left = none
  write_loop (suc rounds) s mb left = elim (left == 0) [
    | true ↦ some (ok, mb, s)
    | false ↦ after_send (write_loop rounds) s mb left (send s.net (offered mb left))
  ]

  pub write_directly : Socket Net → MemBlock → Option (Progress Net)
  unfolding write_loop
  write_directly s mb =
      if ltb mb.size mb.offset
      then some (minus einval, mb, s)
      else write_loop (suc (sub_u32 mb.size mb.offset)) s mb (sub_u32 mb.size mb.offset)

  -- What follows a write of the loop: the next round, or the end with the block kept.
  pub pending_step :
      (again : Watch Net → Option (Code × Watch Net))
      → Watch Net
      → Progress Net
      → Option (Code × Watch Net)
  pending_step again w (ok, mb, s) = again (drop_block w mb s)
  pending_step again w (minus e, mb, s) = some (minus e, keep_block w mb s)

  -- A round, with the block that it goes on with.
  pub pending_round :
      (again : Watch Net → Option (Code × Watch Net))
      → Watch Net
      → Option (MemBlock × Watch Net)
      → Option (Code × Watch Net)
  unfolding pending_step
  pending_round again w none = some (ok, record w { ev_write = false })
  pending_round again w (some (mb, w')) = write_directly w'.socket mb >>= pending_step again w'

  pub write_pending_loop : ℕ → Watch Net → Option (Code × Watch Net)
  unfolding pending_round
  write_pending_loop zero w = none
  write_pending_loop (suc rounds) w = pending_round (write_pending_loop rounds) w (next_block w)

  -- A round for each block and one to see that none is left.
  pub write_pending : Watch Net → Option (Code × Watch Net)
  unfolding write_pending_loop
  write_pending w = write_pending_loop (suc (suc (length w.backlog))) w

  -- `proto_watch_write_mb`
  pub write_mb : Watch Net → MemBlock → Option (Code × Watch Net)
  write_mb w mb =
      if w.killed
      then some (minus ekilled, record w { freed = mb ∷ w.freed })
      else if not w.connecting && (is_none w.write_buffer && is_empty w.backlog)
      then (do some (after_direct w (← write_directly w.socket mb)))
      else some (enqueue w mb)
