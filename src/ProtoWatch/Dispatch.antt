-- ===== src/ProtoWatch/Dispatch.antt =====
-- src/proto_watch.c: what a watch does when its event fires, and connecting.
pub mod Keeps
pub mod Rules
mod Tests
use h.Base.{
  ℕ, zero, suc, ◌+◌, ◌≤◌, ◌<◌, ◌≡◌, ◌≢◌, ◌⊎◌, inl, inr, refl, sym, Bool, true, false, Bool-cases,
  Option, none, some, List, if◌then◌else◌, not, ◌&&◌, arith,
}
use h.Base.Yields.{Yields, yields, Yields-bind, Yields-if, ◌>>=◌}
use h.Errno.{
  Errno, eagain, ekilled, econnreset, einprogress, Code, ok, minus, is_ok, is_eagain, is_econnreset,
}
use h.ProtoWatch.{Watch, Socket, SendResult, write_pending}
use h.ProtoWatch.Send.{TakesAtMost}
use h.ProtoWatch.Valid.{IsValid}
use h.ProtoWatch.Pending.{Drained, write_pending_lem}

-- EV_TIMER, EV_WRITE and EV_READ in what fired.
pub record Revents : Type 0 where
  pub timer : Bool
  pub writes : Bool
  pub reads : Bool

-- `parse_proto_io`: a message, or NULL and an error.
pub data Parsed : Type 0 where
  message : ℕ → Parsed
  nothing : Code → Parsed

-- `getsockopt` of SO_ERROR: a failure, or 0 or an error of the socket.
pub data SockError : Type 0 where
  no_answer : Errno → SockError
  answer : Code → SockError

-- Where a part of `__proto_watch_dispath` goes on: behind itself, to `conn_closed`, or to
-- `conn_err` with an error.
pub data Next : Type 0 where
  go_on conn_closed : Next
  conn_err : Code → Next

-- The watch behind `w->lock`, with what the parts outside the file do: `send`, `getsockopt`, the
-- parser, and the user's callbacks; a callback that is not set changes nothing and returns 0.
pub record Outside (Net : Type 0) : Type 0 where
  pub send : Net → List ℕ → SendResult × Net
  pub so_error : Net → SockError
  pub parse : Net → Parsed × Net
  pub msg_recv : Watch Net → ℕ → Code × Watch Net
  pub on_closed : Watch Net → Watch Net
  pub on_error : Watch Net → Code → Watch Net

abbrev pub set_net : {Net : Type 0} → Watch Net → Net → Watch Net
set_net w net = record w { socket = record { net = net; wire = w.socket.wire } }

module _ {Net : Type 0} (out : Outside Net) where
  -- `__proto_watch_on_closed` and `__proto_watch_on_error`
  abbrev pub watch_on_closed : Watch Net → Watch Net
  watch_on_closed w = record (out.on_closed w) { is_open = false }

  abbrev pub watch_on_error : Watch Net → Code → Watch Net
  watch_on_error w err = record (out.on_error w err) { is_open = false }

  -- The answer of `getsockopt` when a connection is ready.
  abbrev pub after_connect : SockError → Next
  after_connect (no_answer e) = conn_err (minus e)
  after_connect (answer ok) = go_on
  after_connect (answer (minus e)) = conn_err (minus e)

  -- The answer of `__proto_watch_write_pending`.
  abbrev pub after_pending : Code × Watch Net → Next × Watch Net
  after_pending (err, w) =
      (if is_ok err then go_on else if is_eagain err then go_on else conn_err err, w)

  -- The part for EV_WRITE.
  pub dispatch_write : Watch Net → Option (Next × Watch Net)
  dispatch_write w =
      if w.connecting
      then some (after_connect (out.so_error w.socket.net), record w { connecting = false })
      else (write_pending out.send w >>= λ r. some (after_pending r))

  abbrev pub no_message : Code → Next
  no_message err =
      if is_eagain err then go_on else if is_econnreset err then conn_closed else conn_err err

  -- A round of the part for EV_READ, with what the parser gave.
  abbrev pub after_recv :
      (again : Watch Net → Option (Next × Watch Net)) → Code × Watch Net → Option (Next × Watch Net)
  after_recv again (err, w) = if is_ok err then again w else some (conn_err err, w)

  pub read_round :
      (again : Watch Net → Option (Next × Watch Net))
      → Watch Net
      → Parsed × Net
      → Option (Next × Watch Net)
  read_round again w (nothing err, net) = some (no_message err, set_net w net)
  read_round again w (message m, net) = after_recv again (out.msg_recv (set_net w net) m)

  -- The part for EV_READ.
  pub dispatch_read : ℕ → Watch Net → Option (Next × Watch Net)
  unfolding read_round
  dispatch_read zero w = none
  dispatch_read (suc rounds) w = read_round (dispatch_read rounds) w (out.parse w.socket.net)

  abbrev pub finish : Next × Watch Net → Bool × Watch Net
  finish (go_on, w) = (true, w)
  finish (conn_closed, w) = (false, watch_on_closed w)
  finish (conn_err err, w) = (false, watch_on_error w err)

  abbrev pub then_read : ℕ → Revents → Next × Watch Net → Option (Next × Watch Net)
  then_read rounds ev (go_on, w) = if ev.reads then dispatch_read rounds w else some (go_on, w)
  then_read rounds ev (conn_closed, w) = some (conn_closed, w)
  then_read rounds ev (conn_err err, w) = some (conn_err err, w)

  -- `__proto_watch_dispath`, with the rounds of its reading loop.
  pub watch_dispatch : ℕ → Watch Net → Revents → Option (Bool × Watch Net)
  unfolding dispatch_write dispatch_read
  watch_dispatch rounds w ev =
      if ev.timer
      then some (finish (conn_err (minus eagain), w))
      else ((if ev.writes then dispatch_write w else some (go_on, w))
          >>= then_read rounds ev
          >>= λ r. some (finish r))

  -- `proto_watch_dispath`
  pub dispatch : ℕ → Watch Net → Revents → Option (Bool × Watch Net)
  unfolding watch_dispatch
  dispatch rounds w ev = if w.killed then some (false, w) else watch_dispatch rounds w ev

-- `__proto_watch_set_dst`, with what `unix_sock_connect` returns.
pub after_dst : {Net : Type 0} → Watch Net → Code → Code × Watch Net
after_dst w ok = (ok, w)
after_dst w (minus einprogress) = (ok, record w { connecting = true; ev_write = true })
after_dst w (minus e) = (minus e, w)

-- `proto_watch_set_dst`
pub set_dst : {Net : Type 0} → Watch Net → Code → Code × Watch Net
unfolding after_dst
set_dst w reply = if w.killed then (minus ekilled, w) else after_dst w reply
