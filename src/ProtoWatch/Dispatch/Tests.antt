-- ===== src/ProtoWatch/Dispatch/Tests.antt =====
-- A dispatch of a watch with one message to read.
use h.Base.{ℕ, ◌≡◌, ◌<◌, refl, Bool, true, false, none, some, [], arith}
use h.Base.Yields.{Yields}
use h.Errno.{eagain, ok, minus}
use h.ProtoWatch.{Watch, failed}
use h.ProtoWatch.Valid.{IsValid}
use h.ProtoWatch.Dispatch.{Revents, Parsed, message, nothing, answer, Outside, watch_dispatch}
use h.ProtoWatch.Dispatch.Keeps.{IsOutside, Dispatched, watch_dispatch_lem}

-- The network is a flag: whether there is a message to read.
abbrev next_message : Bool → Parsed × Bool
next_message true = (message 7, false)
next_message false = (nothing (minus eagain), false)

abbrev outside : Outside Bool
outside = record {
  send = λ net bytes. (failed eagain, net);
  so_error = λ net. answer ok;
  parse = next_message;
  msg_recv = λ w m. (ok, w);
  on_closed = λ w. w;
  on_error = λ w err. w;
}

abbrev unread : Bool → ℕ
unread true = 1
unread false = 0

next_message-unread :
    (net : Bool) (m : ℕ)
    → (next_message net).0 ≡ message m
    → unread (next_message net).1 < unread net
next_message-unread true m h = omega arith
next_message-unread false m h = absurd (ground arith)

outside-IsOutside : IsOutside outside unread
outside-IsOutside = record {
  takes = λ net bytes n h. absurd (ground arith);
  recv_valid = λ w m v. v;
  closed_valid = λ w v. v;
  error_valid = λ w err v. v;
  parses = next_message-unread;
  recv_reads = λ w m. omega arith;
}

abbrev watch : Watch Bool
watch = record {
  socket = record { net = true; wire = [] };
  is_open = true;
  killed = false;
  connecting = true;
  window_size = 0;
  sched = some 1;
  write_buffer = none;
  backlog = [];
  backlog_size = 0;
  ev_write = true;
  freed = [];
}

watch-IsValid : IsValid watch
watch-IsValid = record {
  sized = refl;
  bounded = omega arith;
  buffer_fits = tt;
  backlog_fits = tt;
  wakes = λ h. refl;
  connects = λ h. refl;
}

abbrev both : Revents
both = record { timer = false; writes = true; reads = true }

unread_few : (net : Bool) → unread net < 2
unread_few true = omega arith
unread_few false = omega arith

watch_dispatch_lem_example :
    Yields (Dispatched outside-IsOutside watch both) (watch_dispatch outside 2 watch both)
watch_dispatch_lem_example =
    watch_dispatch_lem outside-IsOutside 2 watch both watch-IsValid unread_few
