-- ===== src/ProtoWatch/Dispatch/Keeps.antt =====
-- A dispatch ends, keeps the watch valid, and does what the rules say.
use h.Base.{
  ℕ, zero, suc, ◌≤◌, ◌<◌, ◌≡◌, refl, inl, inr, Bool, true, false, Bool-cases, Option, some,
  if◌then◌else◌, arith,
}
use h.Base.Yields.{Yields, yields, Yields-bind, Yields-if, Yields-some, Yields-weaken}
use h.Errno.{eagain, Code, ok, minus, is_ok, is_eagain, is_econnreset}
use h.ProtoWatch.{Watch, write_pending}
use h.ProtoWatch.Send.{TakesAtMost}
use h.ProtoWatch.Valid.{IsValid}
use h.ProtoWatch.Pending.{write_pending_lem}
use h.ProtoWatch.Dispatch.{
  Revents, Parsed, message, nothing, SockError, no_answer, answer, Next, go_on, conn_closed,
  conn_err, Outside, set_net, after_connect, after_pending, read_round, dispatch_read,
  dispatch_write, then_read, finish, watch_dispatch,
}
use h.ProtoWatch.Dispatch.Rules.{
  Writes, connected, refused, unanswered, drained, blocked, broken, Reads, dry, closed, garbled,
  received, rejected, AfterWrite, no_write, wrote, AfterRead, no_read, has_read, Dispatches,
  timeout, both_parts, write_closed, write_failed, Reported, goes_on, calls_closed, calls_error,
}

-- What the model asks of the outside: `send` takes no more than it is offered, the callbacks keep a
-- watch valid, and the parser has only so many messages.
pub record IsOutside {Net : Type 0} (out : Outside Net) (unread : Net → ℕ) : Type 0 where
  pub takes : TakesAtMost out.send
  pub recv_valid : (w : Watch Net) (m : ℕ) → IsValid w → IsValid (out.msg_recv w m).1
  pub closed_valid : (w : Watch Net) → IsValid w → IsValid (out.on_closed w)
  pub error_valid : (w : Watch Net) (err : Code) → IsValid w → IsValid (out.on_error w err)
  pub parses :
      (net : Net) (m : ℕ) → (out.parse net).0 ≡ message m → unread (out.parse net).1 < unread net
  pub recv_reads :
      (w : Watch Net) (m : ℕ) → unread (out.msg_recv w m).1.socket.net ≤ unread w.socket.net

module _ {Net : Type 0} {out : Outside Net} {unread : Net → ℕ} (law : IsOutside out unread) where
  set_net-IsValid : (w : Watch Net) (net : Net) → IsValid w → IsValid (set_net w net)
  set_net-IsValid w net v = record {
    sized = v.sized;
    bounded = v.bounded;
    buffer_fits = v.buffer_fits;
    backlog_fits = v.backlog_fits;
    wakes = v.wakes;
    connects = v.connects;
  }

  -- Where the watch's reading gets to.
  abbrev GotRead : Watch Net → Next × Watch Net → Type 0
  GotRead w (next, w') = IsValid w' × Reads out w next w'

  read_round-GotRead :
      {again : Watch Net → Option (Next × Watch Net)} (w : Watch Net) (r : Parsed × Net) (k : ℕ)
      → out.parse w.socket.net ≡ r
      → IsValid w
      → ((m : ℕ) → r.0 ≡ message m → unread r.1 < k)
      → ((w' : Watch Net) → IsValid w' → unread w'.socket.net < k → Yields (GotRead w') (again w'))
      → Yields (GotRead w) (read_round out again w r)
  unfolding read_round
  read_round-GotRead w (nothing err, net) k parsed v less more = elim (Bool-cases (is_eagain err)) [
    | inl wait ↦ rw wait (yields (set_net-IsValid w net v, dry parsed wait))
    | inr other ↦ elim (Bool-cases (is_econnreset err)) [
      | inl reset ↦ rw (other, reset) (yields (set_net-IsValid w net v, closed parsed other reset))
      | inr bad ↦ rw (other, bad) (yields (set_net-IsValid w net v, garbled parsed other bad))
    ]
  ]
  read_round-GotRead {again} w (message m, net) k parsed v less more =
      let r = out.msg_recv (set_net w net) m in
      let v' = law.recv_valid (set_net w net) m (set_net-IsValid w net v) in
      Yields-if (is_ok r.0)
        (λ fine.
          Yields-weaken (more r.1 v' (omega (arith, less m refl, law.recv_reads (set_net w net) m)))
            λ r' (valid, reads). (valid, received parsed refl fine reads))
        λ bad. yields (v', rejected parsed refl bad)

  dispatch_read-GotRead :
      (rounds : ℕ) (w : Watch Net)
      → IsValid w
      → unread w.socket.net < rounds
      → Yields (GotRead w) (dispatch_read out rounds w)
  unfolding dispatch_read
  dispatch_read-GotRead zero w v enough = absurd (omega arith)
  dispatch_read-GotRead (suc k) w v enough =
      read_round-GotRead w (out.parse w.socket.net) k refl v
        (λ m same. omega (arith, law.parses w.socket.net m same))
        λ w' v' less. dispatch_read-GotRead k w' v' less

  abbrev GotWritten : Watch Net → Next × Watch Net → Type 0
  GotWritten w (next, w') = IsValid w' × Writes out w next w'

  still-IsValid : (w : Watch Net) → IsValid w → IsValid (record w { connecting = false })
  still-IsValid w v = record {
    sized = v.sized;
    bounded = v.bounded;
    buffer_fits = v.buffer_fits;
    backlog_fits = v.backlog_fits;
    wakes = v.wakes;
    connects = λ h. absurd (ground arith);
  }

  after_connect-GotWritten :
      (w : Watch Net) (reply : SockError)
      → out.so_error w.socket.net ≡ reply
      → w.connecting ≡ true
      → IsValid w
      → GotWritten w (after_connect out reply, record w { connecting = false })
  after_connect-GotWritten w (no_answer e) same busy v = (still-IsValid w v, unanswered busy same)
  after_connect-GotWritten w (answer ok) same busy v = (still-IsValid w v, connected busy same)
  after_connect-GotWritten w (answer (minus e)) same busy v = (still-IsValid w v, refused busy same)

  after_pending-GotWritten :
      (w : Watch Net) (r : Code × Watch Net)
      → w.connecting ≡ false
      → write_pending out.send w ≡ some r
      → IsValid r.1
      → GotWritten w (after_pending out r)
  after_pending-GotWritten w (ok, w') calm same v = (v, drained calm same)
  after_pending-GotWritten w (minus e, w') calm same v = elim (Bool-cases (is_eagain (minus e))) [
    | inl wait ↦ rw wait (v, blocked calm same wait)
    | inr bad ↦ rw bad (v, broken calm same refl bad)
  ]

  dispatch_write-GotWritten :
      (w : Watch Net) → IsValid w → Yields (GotWritten w) (dispatch_write out w)
  unfolding dispatch_write
  dispatch_write-GotWritten w v =
      Yields-if w.connecting
        (λ busy. yields (after_connect-GotWritten w (out.so_error w.socket.net) refl busy v))
        λ calm.
          let (r, same, got) = Yields-some (write_pending_lem out.send law.takes w v calm) in
          rw same (yields (after_pending-GotWritten w r calm same got.continues.valid))

  closed-IsValid : (w : Watch Net) → IsValid w → IsValid (record w { is_open = false })
  closed-IsValid w v = record {
    sized = v.sized;
    bounded = v.bounded;
    buffer_fits = v.buffer_fits;
    backlog_fits = v.backlog_fits;
    wakes = v.wakes;
    connects = v.connects;
  }

  -- What a dispatch leaves, by the rules.
  abbrev pub Dispatched : Watch Net → Revents → Bool × Watch Net → Type 0
  Dispatched w ev (done, w') =
      IsValid w'
      × ((next : Next) × ((before : Watch Net) × Dispatches out w ev next before
            × Reported out next before done w'))

  finish-Dispatched :
      (w : Watch Net) (ev : Revents) (r : Next × Watch Net)
      → IsValid r.1
      → Dispatches out w ev r.0 r.1
      → Dispatched w ev (finish out r)
  finish-Dispatched w ev (go_on, w') v does = (v, (go_on, (w', does, goes_on)))
  finish-Dispatched w ev (conn_closed, w') v does = (
    closed-IsValid (out.on_closed w') (law.closed_valid w' v),
    (conn_closed, (w', does, calls_closed)),
  )
  finish-Dispatched w ev (conn_err err, w') v does = (
    closed-IsValid (out.on_error w' err) (law.error_valid w' err v),
    (conn_err err, (w', does, calls_error)),
  )

  abbrev Parts : Watch Net → Revents → Next × Watch Net → Type 0
  Parts w ev (next, w') = IsValid w' × Dispatches out w ev next w'

  read_part :
      (rounds : ℕ) (w : Watch Net) (reads : Bool)
      → IsValid w
      → unread w.socket.net < rounds
      → Yields
          (λ (next, w'). IsValid w' × AfterRead out w reads next w')
          (if reads then dispatch_read out rounds w else some (go_on, w))
  read_part rounds w false v enough = yields (v, no_read)
  read_part rounds w true v enough =
      Yields-weaken (dispatch_read-GotRead rounds w v enough)
        λ r (valid, reads). (valid, has_read reads)

  write_part :
      (w : Watch Net) (writes : Bool)
      → IsValid w
      → Yields
          (λ (next, w'). IsValid w' × AfterWrite out w writes next w')
          (if writes then dispatch_write out w else some (go_on, w))
  write_part w false v = yields (v, no_write)
  write_part w true v =
      Yields-weaken (dispatch_write-GotWritten w v) λ r (valid, writes). (valid, wrote writes)

  then_read-Parts :
      (rounds : ℕ) (w : Watch Net) (ev : Revents) (r : Next × Watch Net)
      → ev.timer ≡ false
      → IsValid r.1
      → AfterWrite out w ev.writes r.0 r.1
      → unread r.1.socket.net < rounds
      → Yields (Parts w ev) (then_read out rounds ev r)
  then_read-Parts rounds w ev (go_on, w') calm v after enough =
      Yields-weaken (read_part rounds w' ev.reads v enough)
        λ r (valid, reads). (valid, both_parts calm after reads)
  then_read-Parts rounds w ev (conn_closed, w') calm v after enough =
      yields (v, write_closed calm after)
  then_read-Parts rounds w ev (conn_err err, w') calm v after enough =
      yields (v, write_failed calm after)

  -- Where `send` takes no more than it is offered, the callbacks keep a watch valid, the parser has
  -- one message less left for each that it gives and the message callback none more, and there are
  -- never as many left as there are rounds: the dispatch of a valid watch that is not killed ends, with
  -- a valid watch, and does what the rules say. A timeout is an error, -EAGAIN. A connecting watch that
  -- may write no longer connects, and goes on unless `getsockopt` gives an error; any other goes on
  -- where writing what waits returns 0 or -EAGAIN. Then the user gets the messages until the parser
  -- has none, or the user returns an error. H6_TRUE is returned where all of this goes on. H6_FALSE is
  -- returned with the descriptor closed, where the parser gives -ECONNRESET, behind the closed callback
  -- alone, and after any other error, behind the error callback alone, with that error.
  pub watch_dispatch_lem :
      (rounds : ℕ) (w : Watch Net) (ev : Revents)
      → IsValid w
      → ((net : Net) → unread net < rounds)
      → Yields (Dispatched w ev) (watch_dispatch out rounds w ev)
  unfolding watch_dispatch
  watch_dispatch_lem rounds w ev v enough =
      Yields-if ev.timer
        (λ late. yields (finish-Dispatched w ev (conn_err (minus eagain), w) v (timeout late)))
        λ calm.
          Yields-bind
            (Yields-bind (write_part w ev.writes v)
              λ r (v', after). then_read-Parts rounds w ev r calm v' after (enough r.1.socket.net))
            λ r (v', does). yields (finish-Dispatched w ev r v' does)
