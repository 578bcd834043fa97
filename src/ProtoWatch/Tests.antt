-- ===== src/ProtoWatch/Tests.antt =====
-- The theorems on src/proto_watch.c at small watches, and runs.
use h.Base.{
  ℕ, ◌-◌, ◌≡◌, refl, min, true, false, none, some, List, [], ◌∷◌, ◌++◌, ◌==◌, if◌then◌else◌, length,
  arith,
}
use h.Base.Yields.{Yields}
use h.Errno.{ok, eagain}
use h.MemBlock.{MemBlock}
use h.ProtoWatch.{
  SendResult, sent, failed, Watch, adjust_window, after_send, write_loop, write_directly,
  next_block, pending_step, pending_round, write_pending_loop, write_pending, write_mb,
}
use h.ProtoWatch.Send.{TakesAtMost}
use h.ProtoWatch.Valid.{IsValid}
use h.ProtoWatch.Pending.{Drained, write_pending_lem}
use h.ProtoWatch.Window.{IsAdjusted, adjust_window_lem}
use h.ProtoWatch.Wrote.{Wrote}
use h.ProtoWatch.Write.{write_mb_lem}

-- A socket with room for a number of bytes.
send : ℕ → List ℕ → SendResult × ℕ
send room bytes =
    if room == 0
    then (failed eagain, 0)
    else (sent (min room (length bytes)), room - min room (length bytes))

send-TakesAtMost : TakesAtMost send
unfolding send
send-TakesAtMost room bytes n h = ground arith

abbrev block : ℕ → ℕ → List ℕ → MemBlock
block seq flags bytes = record {
  bytes = bytes;
  seq = seq;
  flags = flags;
  offset = 0;
  size = length bytes;
  b_size = length bytes;
}

abbrev idle : Watch ℕ
idle = record {
  socket = record { net = 4; wire = [] };
  is_open = true;
  killed = false;
  connecting = false;
  window_size = 5;
  sched = none;
  write_buffer = none;
  backlog = [];
  backlog_size = 0;
  ev_write = false;
  freed = [];
}

-- Two bytes of a block have gone out, and two blocks wait, the first of them old and dropable.
abbrev busy : Watch ℕ
busy = record idle {
  write_buffer = some (record (block 1 0 (1 ∷ 2 ∷ 3 ∷ [])) { offset = 2 });
  backlog = block 2 1 (4 ∷ 5 ∷ []) ∷ block 3 0 (6 ∷ []) ∷ [];
  backlog_size = 3;
  ev_write = true;
}

busy-IsValid : IsValid busy
busy-IsValid = record {
  sized = refl;
  bounded = omega arith;
  buffer_fits = omega arith;
  backlog_fits = omega arith;
  wakes = λ h. refl;
  connects = λ h. refl;
}

-- Three bytes are sent whole; of the next three one finds room, and the block waits.
direct_runs :
    (write_mb send idle (block 1 0 (7 ∷ 8 ∷ 9 ∷ []))
      ≡ some (
        ok,
        record idle {
          socket = record { net = 1; wire = 7 ∷ 8 ∷ 9 ∷ [] };
          freed = record (block 1 0 (7 ∷ 8 ∷ 9 ∷ [])) { offset = 3 } ∷ [];
        },
      ))
unfolding write_mb write_directly write_loop after_send send
direct_runs = refl

-- The queue goes out, and the fifth byte finds no room.
pending_runs :
    write_pending send busy
    ≡ some (
      ok,
      record busy {
        socket = record { net = 0; wire = 3 ∷ 4 ∷ 5 ∷ 6 ∷ [] };
        write_buffer = none;
        backlog = [];
        backlog_size = 0;
        ev_write = false;
        freed =
            record (block 3 0 (6 ∷ [])) { offset = 1 }
            ∷ record (block 2 1 (4 ∷ 5 ∷ [])) { offset = 2 }
            ∷ record (block 1 0 (1 ∷ 2 ∷ 3 ∷ [])) { offset = 3 }
            ∷ [];
      },
    )
unfolding write_pending write_pending_loop pending_round pending_step next_block write_directly
    write_loop after_send send
pending_runs = refl

write_pending_lem_example : Yields (Drained busy) (write_pending send busy)
write_pending_lem_example = write_pending_lem send send-TakesAtMost busy busy-IsValid refl

write_mb_lem_example :
    Yields (Wrote busy (block 9 0 (7 ∷ 8 ∷ []))) (write_mb send busy (block 9 0 (7 ∷ 8 ∷ [])))
write_mb_lem_example =
    write_mb_lem send send-TakesAtMost busy (block 9 0 (7 ∷ 8 ∷ [])) busy-IsValid (omega arith)
      (omega arith)

adjust_window_lem_example :
    (dropped : List MemBlock) × IsAdjusted 9 5 0 busy.backlog
      ((adjust_window busy 9).backlog, dropped, (adjust_window busy 9).backlog_size)
    × ((adjust_window busy 9).freed ≡ dropped ++ [])
adjust_window_lem_example = adjust_window_lem busy 9 busy-IsValid (omega arith)
