-- ===== src/ProtoWatch/Dispatch/Rules.antt =====
-- What a dispatch does, as rules: which callback a watch's event leads to, with which error.
use h.Base.{ℕ, ◌≡◌, Bool, true, false, some}
use h.Errno.{Errno, eagain, Code, ok, minus, is_ok, is_eagain, is_econnreset}
use h.ProtoWatch.{Watch, write_pending}
use h.ProtoWatch.Dispatch.{
  Revents, message, nothing, no_answer, answer, Next, go_on, conn_closed, conn_err, Outside,
  set_net,
}

module _ {Net : Type 0} (out : Outside Net) where
  -- A watch that may write: one that connects is connected or not, any other writes what waits.
  pub data Writes (w : Watch Net) : Next → Watch Net → Type 0 where
    connected :
        w.connecting ≡ true
        → out.so_error w.socket.net ≡ answer ok
        → Writes w go_on (record w { connecting = false })
    refused :
        {e : Errno}
        → w.connecting ≡ true
        → out.so_error w.socket.net ≡ answer (minus e)
        → Writes w (conn_err (minus e)) (record w { connecting = false })
    unanswered :
        {e : Errno}
        → w.connecting ≡ true
        → out.so_error w.socket.net ≡ no_answer e
        → Writes w (conn_err (minus e)) (record w { connecting = false })
    drained :
        {w' : Watch Net}
        → w.connecting ≡ false
        → write_pending out.send w ≡ some (ok, w')
        → Writes w go_on w'
    blocked :
        {err : Code} {w' : Watch Net}
        → w.connecting ≡ false
        → write_pending out.send w ≡ some (err, w')
        → is_eagain err ≡ true
        → Writes w go_on w'
    broken :
        {err : Code} {w' : Watch Net}
        → w.connecting ≡ false
        → write_pending out.send w ≡ some (err, w')
        → is_ok err ≡ false
        → is_eagain err ≡ false
        → Writes w (conn_err err) w'

  -- A watch that may read: the user gets messages until there is none or the user returns an error.
  pub data Reads : Watch Net → Next → Watch Net → Type 0 where
    dry :
        {w : Watch Net} {err : Code} {net : Net}
        → out.parse w.socket.net ≡ (nothing err, net)
        → is_eagain err ≡ true
        → Reads w go_on (set_net w net)
    closed :
        {w : Watch Net} {err : Code} {net : Net}
        → out.parse w.socket.net ≡ (nothing err, net)
        → is_eagain err ≡ false
        → is_econnreset err ≡ true
        → Reads w conn_closed (set_net w net)
    garbled :
        {w : Watch Net} {err : Code} {net : Net}
        → out.parse w.socket.net ≡ (nothing err, net)
        → is_eagain err ≡ false
        → is_econnreset err ≡ false
        → Reads w (conn_err err) (set_net w net)
    received :
        {w : Watch Net} {m : ℕ} {net : Net} {err : Code} {next : Next} {w' w'' : Watch Net}
        → out.parse w.socket.net ≡ (message m, net)
        → out.msg_recv (set_net w net) m ≡ (err, w')
        → is_ok err ≡ true
        → Reads w' next w''
        → Reads w next w''
    rejected :
        {w : Watch Net} {m : ℕ} {net : Net} {err : Code} {w' : Watch Net}
        → out.parse w.socket.net ≡ (message m, net)
        → out.msg_recv (set_net w net) m ≡ (err, w')
        → is_ok err ≡ false
        → Reads w (conn_err err) w'

  -- The part for EV_WRITE, where it fired, and that for EV_READ.
  pub data AfterWrite (w : Watch Net) : Bool → Next → Watch Net → Type 0 where
    no_write : AfterWrite w false go_on w
    wrote : {next : Next} {w' : Watch Net} → Writes w next w' → AfterWrite w true next w'

  pub data AfterRead (w : Watch Net) : Bool → Next → Watch Net → Type 0 where
    no_read : AfterRead w false go_on w
    has_read : {next : Next} {w' : Watch Net} → Reads w next w' → AfterRead w true next w'

  -- A timeout alone is an error; else the writing comes first, and the reading where that goes on.
  pub data Dispatches (w : Watch Net) (ev : Revents) : Next → Watch Net → Type 0 where
    timeout : ev.timer ≡ true → Dispatches w ev (conn_err (minus eagain)) w
    both_parts :
        {next : Next} {w' w'' : Watch Net}
        → ev.timer ≡ false
        → AfterWrite w ev.writes go_on w'
        → AfterRead w' ev.reads next w''
        → Dispatches w ev next w''
    write_closed :
        {w' : Watch Net}
        → ev.timer ≡ false
        → AfterWrite w ev.writes conn_closed w'
        → Dispatches w ev conn_closed w'
    write_failed :
        {err : Code} {w' : Watch Net}
        → ev.timer ≡ false
        → AfterWrite w ev.writes (conn_err err) w'
        → Dispatches w ev (conn_err err) w'

  -- What is returned, and the callback's effect: the closed callback, the error callback with the
  -- error, or none.
  pub data Reported : Next → Watch Net → Bool → Watch Net → Type 0 where
    goes_on : {w : Watch Net} → Reported go_on w true w
    calls_closed :
        {w : Watch Net}
        → Reported conn_closed w false (record (out.on_closed w) { is_open = false })
    calls_error :
        {w : Watch Net} {err : Code}
        → Reported (conn_err err) w false (record (out.on_error w err) { is_open = false })
