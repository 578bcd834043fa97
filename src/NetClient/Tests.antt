-- ===== src/NetClient/Tests.antt =====
-- A client that has just been made and attached to a loop.
use h.Base.{ℕ, min, true, false, none, some, List, [], ◌∷◌, length, ◌-◌, if◌then◌else◌, ◌==◌}
use h.Errno.{eagain}
use h.NetClient.Made.{Made}
use h.MemBlock.{MemBlock}
use h.ProtoWatch.{SendResult, sent, failed, Watch}
use h.Client.Ends.{Ends}
use h.NetClient.{NetClient}

-- A socket with room for a number of bytes.
send : ℕ → List ℕ → SendResult × ℕ
send room bytes =
    if room == 0
    then (failed eagain, 0)
    else (sent (min room (length bytes)), room - min room (length bytes))

abbrev a_block : MemBlock
a_block = record { bytes = 7 ∷ 8 ∷ []; seq = 1; flags = 0; offset = 0; size = 2; b_size = 2 }

abbrev a_watch : Watch ℕ
a_watch = record {
  socket = record { net = 1; wire = [] };
  is_open = true;
  killed = false;
  connecting = false;
  window_size = 5;
  sched = some 1;
  write_buffer = none;
  backlog = [];
  backlog_size = 0;
  ev_write = false;
  freed = [];
}

abbrev a_client : NetClient ℕ
a_client = record {
  client_refs = 2;
  client_alive = true;
  killed = false;
  has_watch = true;
  watch = a_watch;
  watch_refs = 2;
  watch_alive = true;
  has_kill = true;
  has_fin = true;
  calls = [];
  freed = [];
}
