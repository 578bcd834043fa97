-- ===== src/NetClient.antt =====
-- src/network_client.c: a client over one proto_watch, with the references that the two hold to each
-- other. The client is in no set.
pub mod Made
pub mod Sent
pub mod Released
pub mod Closed
mod Tests
use h.Base.{
  ℕ, zero, suc, ◌+◌, ◌-◌, Bool, true, false, Option, none, some, List, [], ◌∷◌, ◌++◌, ◌==◌,
  if◌then◌else◌,
}
use h.Errno.{Errno, Code, ok, minus, einval, ekilled}
use h.MemBlock.{MemBlock}
use h.ProtoWatch.{Watch, Socket, SendResult, write_mb, writeable, attach, kill, set_window}
use h.Client.{Outcome, done, deadlock, fault, starved, ◌>>=◌}

-- The calls of `network_client_ops`.
pub data NetCall : Type 0 where
  nc_kill nc_fin nc_closed : NetCall
  nc_error : Errno → NetCall

-- `network_client` and its watch, each with its references and whether it is still allocated;
-- `has_watch` is whether `proto_watch` is not NULL, `freed` the blocks that the client itself freed.
pub record NetClient (Net : Type 0) : Type 0 where
  pub client_refs : ℕ
  pub client_alive : Bool
  pub killed : Bool
  pub has_watch : Bool
  pub watch : Watch Net
  pub watch_refs : ℕ
  pub watch_alive : Bool
  pub has_kill : Bool
  pub has_fin : Bool
  pub calls : List NetCall
  pub freed : List MemBlock

-- The blocks that a watch owns.
abbrev pub buffer_list : Option MemBlock → List MemBlock
buffer_list none = []
buffer_list (some mb) = mb ∷ []

abbrev pub moved : List MemBlock → List MemBlock → List MemBlock
moved [] freed = freed
moved (mb ∷ r) freed = moved r (mb ∷ freed)

-- A loop of the watch that may use up its rounds.
abbrev pub ended {ℓ} : {A : Type ℓ} → Option A → Outcome A
ended none = starved
ended (some a) = done a

-- The reference that a request to the loop of a scheduler takes, where there is a scheduler: an
-- event's loop lets go of it once the request is done. The loop has not quit.
abbrev pub requested : Option ℕ → ℕ
requested none = 0
requested (some sched) = 1

module _ {Net : Type 0} where
  -- What `h6_ev_add_events` asks of the loop behind a write: nothing where the watch waited to write
  -- before, or does not now.
  abbrev pub wakes : Watch Net → Watch Net → ℕ
  wakes before after =
      if before.ev_write then 0 else if after.ev_write then requested after.sched else 0

  -- `proto_watch_fin_self`
  pub fin_self : Watch Net → Watch Net
  fin_self w = record w {
    is_open = false;
    backlog = [];
    write_buffer = none;
    freed = moved (buffer_list w.write_buffer) (moved w.backlog w.freed);
  }

  -- `proto_watch_unref`, with what the last reference does to the client behind `fin_self`.
  pub drop_watch :
      (NetClient Net → Outcome (NetClient Net)) → NetClient Net → Outcome (NetClient Net)
  drop_watch unref_user s =
      if s.watch_alive
      then if s.watch_refs == 0
        then fault
        else if s.watch_refs == 1
        then unref_user (record s { watch = fin_self s.watch; watch_refs = 0; watch_alive = false })
        else done (record s { watch_refs = s.watch_refs - 1 })
      else fault

  -- `proto_watch_kill`; `h6_sched_remove` asks the loop to remove the watch.
  pub kill_watch : NetClient Net → Outcome (NetClient Net)
  kill_watch s =
      if s.watch_alive
      then done (record s {
        watch = (kill s.watch).0;
        watch_refs = s.watch_refs + requested (kill s.watch).1;
      })
      else fault

  -- `release_proto_watch` of a client whose references are used up: the watch cannot drop one more.
  pub release_proto_watch : NetClient Net → Outcome (NetClient Net)
  release_proto_watch s =
      if s.has_watch
      then kill_watch s >>= drop_watch (λ s. fault) >>= (λ s. done (record s { has_watch = false }))
      else done s

  -- `network_client_finalize` and `free`
  pub network_client_finalize : NetClient Net → Outcome (NetClient Net)
  network_client_finalize s =
      release_proto_watch (record s { calls = if s.has_fin then nc_fin ∷ s.calls else s.calls })
      >>= (λ s. done (record s { client_alive = false }))

  -- `client_unref`
  pub unref_client : NetClient Net → Outcome (NetClient Net)
  unref_client s =
      if s.client_alive
      then if s.client_refs == 0
        then fault
        else if s.client_refs == 1
        then network_client_finalize (record s { client_refs = 0 })
        else done (record s { client_refs = s.client_refs - 1 })
      else fault

  pub proto_watch_unref : NetClient Net → Outcome (NetClient Net)
  proto_watch_unref s = drop_watch unref_client s

  pub proto_watch_ref : NetClient Net → Outcome (NetClient Net)
  proto_watch_ref s =
      if s.has_watch
      then if s.watch_alive then done (record s { watch_refs = s.watch_refs + 1 }) else fault
      else fault

  pub network_client_self_kill : NetClient Net → Outcome (NetClient Net)
  network_client_self_kill s =
      if s.killed
      then done s
      else if s.has_watch
      then kill_watch (record s { killed = true; has_watch = false }) >>= proto_watch_unref
      else done (record s { killed = true; has_watch = false })

  pub network_client_kill : NetClient Net → Outcome (NetClient Net)
  network_client_kill s =
      network_client_self_kill
        (record s { calls = if s.has_kill then nc_kill ∷ s.calls else s.calls })

  pub network_client_kill_unref : NetClient Net → Outcome (NetClient Net)
  network_client_kill_unref s = network_client_kill s >>= unref_client

  -- `network_client_attach`; the scheduler's loop takes a reference to what it is given.
  pub network_client_attach : ℕ → NetClient Net → Code × NetClient Net
  network_client_attach sched s =
      if s.has_watch
      then (let (err, w, added) = attach s.watch sched in
          (
            err,
            record s { watch = w; watch_refs = if added then s.watch_refs + 1 else s.watch_refs },
          ))
      else (minus einval, s)

  pub network_client_consumable : ℕ → NetClient Net → Outcome (Code × NetClient Net)
  network_client_consumable size s =
      if s.killed
      then done (minus ekilled, s)
      else proto_watch_ref s
        >>= (λ s. proto_watch_unref s >>= (λ t. done (writeable s.watch size, t)))

  pub network_client_send_mb :
      (send : Net → List ℕ → SendResult × Net)
      → MemBlock
      → NetClient Net
      → Outcome (Code × NetClient Net)
  network_client_send_mb send mb s =
      if s.killed
      then done (minus ekilled, record s { freed = mb ∷ s.freed })
      else proto_watch_ref s >>= (λ s. ended (write_mb send s.watch mb) >>= (λ (err, w).
        proto_watch_unref (record s { watch = w; watch_refs = s.watch_refs + wakes s.watch w })
        >>= (λ t. done (err, t))))

abbrev pub default_pw_winsize : ℕ
default_pw_winsize = 25

module _ {Net : Type 0} where
  -- What `proto_watch_new` makes of a socket.
  abbrev pub new_watch : Socket Net → Watch Net
  new_watch io = record {
    socket = io;
    is_open = true;
    killed = false;
    connecting = false;
    window_size = 0;
    sched = none;
    write_buffer = none;
    backlog = [];
    backlog_size = 0;
    ev_write = false;
    freed = [];
  }

  abbrev pub close_socket : NetClient Net → NetClient Net
  close_socket s = record s { watch = record s.watch { is_open = false } }

  -- What `client_alloc` makes before it calls `network_client_init`.
  abbrev pub allocated : Socket Net → (has_kill has_fin : Bool) → NetClient Net
  allocated io has_kill has_fin = record {
    client_refs = 1;
    client_alive = true;
    killed = false;
    has_watch = false;
    watch = new_watch io;
    watch_refs = 0;
    watch_alive = false;
    has_kill = has_kill;
    has_fin = has_fin;
    calls = [];
    freed = [];
  }

  -- `init_this`, once `proto_watch_new` has made the watch.
  abbrev pub init_this : NetClient Net → NetClient Net
  init_this s = record s {
    has_watch = true;
    watch = (set_window s.watch default_pw_winsize).1;
    watch_refs = 1;
    watch_alive = true;
    client_refs = s.client_refs + 1;
  }

  -- `finalize_this` of a client that still has references.
  abbrev pub finalize_this : NetClient Net → Outcome (NetClient Net)
  finalize_this s =
      kill_watch s >>= proto_watch_unref >>= (λ s. done (record s { has_watch = false }))

  -- `network_client_init` behind `init_this`, with what the client's own `init` returns, if it is
  -- there, and the end of `client_alloc`.
  pub init_result : Option Code → NetClient Net → Outcome (Bool × NetClient Net)
  init_result none s = done (true, s)
  init_result (some ok) s = done (true, s)
  init_result (some (minus e)) s =
      finalize_this (record s { has_fin = false }) >>= unref_client >>= (λ s. done (false, s))

  -- What is left where no client is allocated: the socket.
  abbrev pub unallocated : Socket Net → NetClient Net
  unallocated io = record (allocated io false false) { client_refs = 0; client_alive = false }

  -- `network_client_new`: whether the size is large enough, whether `malloc` finds memory for the
  -- client and `proto_watch_new` makes a watch, the socket `io`, whether the client has a `kill` and
  -- a `fin`, and what its `init` returns. The result is whether there is a client; whether the socket
  -- is open is kept in the watch, also where there is none.
  pub network_client_new :
      (large memory made : Bool)
      → Socket Net
      → (has_kill has_fin : Bool) → Option Code
      → Outcome (Bool × NetClient Net)
  network_client_new false memory made io has_kill has_fin result =
      done (false, close_socket (unallocated io))
  network_client_new true false made io has_kill has_fin result = done (false, unallocated io)
  network_client_new true true false io has_kill has_fin result =
      unref_client (close_socket (allocated io has_kill false)) >>= (λ s. done (false, s))
  network_client_new true true true io has_kill has_fin result =
      init_result result (init_this (allocated io has_kill has_fin))
