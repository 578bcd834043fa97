-- ===== src/H6Client.antt =====
-- src/h6_client.c, and what src/network_client.c does with a message that arrives: which of the
-- client's functions a message reaches.
pub mod Table
pub mod New
mod Tests
use h.Base.{ℕ, zero, suc, Bool, true, false, Option, none, some, List, [], ◌∷◌, ◌==◌, if◌then◌else◌}
use h.Errno.{Code, ok, minus, einval, eperm}
use h.ProtoWatch.{Socket}
use h.Client.{Outcome, done, fault, ◌>>=◌}
use h.NetClient.{
  NetClient, close_socket, unallocated, network_client_new, network_client_kill_unref,
}

-- A function that a message is given to, on a state `S`: all that it may read and change.
abbrev pub Handler : Type 0 → Type 0 → Type 0
Handler S Msg = Msg → S → Code × S

-- `h6_client_ops`, those that a message reaches; `recognize` changes nothing.
pub record H6ClientOps (S Msg : Type 0) : Type 0 where
  pub init : Option Code
  pub recognize : Option (Msg → ℕ)
  pub on_setup_channel : Option (Handler S Msg)
  pub on_response : Option (Handler S Msg)
  pub on_data : Option (Handler S Msg)
  pub on_register : Option (Handler S Msg)
  pub on_heart_beat : Option (Handler S Msg)

-- The enumeration of messages.
abbrev pub h6_unknown : ℕ
h6_unknown = 0

abbrev pub h6_setup_channel : ℕ
h6_setup_channel = 1

abbrev pub h6_response : ℕ
h6_response = 2

abbrev pub h6_data : ℕ
h6_data = 3

abbrev pub h6_register : ℕ
h6_register = 4

abbrev pub h6_heart_beat : ℕ
h6_heart_beat = 5

abbrev pub recognized : {Msg : Type 0} → Option (Msg → ℕ) → Msg → ℕ
recognized none m = h6_unknown
recognized (some f) m = f m

module _ {S Msg : Type 0} where
  pub h6_client_recognize : Option (H6ClientOps S Msg) → Msg → ℕ
  h6_client_recognize none m = h6_unknown
  h6_client_recognize (some ops) m = recognized ops.recognize m

  -- `h6_client_handler_##c`
  abbrev pub called : Option (Handler S Msg) → Handler S Msg
  called none m s = (minus eperm, s)
  called (some f) m s = f m s

  pub call_handler :
      (H6ClientOps S Msg → Option (Handler S Msg)) → Option (H6ClientOps S Msg) → Handler S Msg
  call_handler which none m s = (minus eperm, s)
  call_handler which (some ops) m s = called (which ops) m s

  -- `h6_client_handle_msg`
  pub h6_client_handle_msg : Option (H6ClientOps S Msg) → Handler S Msg
  h6_client_handle_msg ops m s =
      let id = h6_client_recognize ops m in
      if id == h6_setup_channel
      then call_handler (λ o. o.on_setup_channel) ops m s
      else if id == h6_response
      then call_handler (λ o. o.on_response) ops m s
      else if id == h6_data
      then call_handler (λ o. o.on_data) ops m s
      else if id == h6_register
      then call_handler (λ o. o.on_register) ops m s
      else if id == h6_heart_beat
      then call_handler (λ o. o.on_heart_beat) ops m s
      else (minus eperm, s)

  -- `network_client_msg_recv`, with whether the client is killed and its `msg_recv`, if there is one.
  abbrev pub msg_recv : Option (Handler S Msg) → Handler S Msg
  msg_recv none m s = (minus einval, s)
  msg_recv (some f) m s = f m s

  pub network_client_msg_recv : (killed : Bool) → Option (Handler S Msg) → Handler S Msg
  network_client_msg_recv killed f m s = if killed then (ok, s) else msg_recv f m s

-- The pointer `ops` of an `h6_client`: `malloc` leaves something there, which may not be followed.
pub data OpsPtr : Type 0 where
  junk : OpsPtr
  given : Bool → OpsPtr

-- `h6_client_kill`, the `kill` of the client's base: whether it calls the client's own. The pointer
-- given is NULL or has a `kill`, or not.
pub h6_client_kill : OpsPtr → Outcome Bool
h6_client_kill junk = fault
h6_client_kill (given has_kill) = done has_kill

-- `h6_client_new`, with whether its size is large enough, what `network_client_new` needs, what the
-- client's `init` returns, if it has one, and whether it has a `kill`. The result is whether there is a
-- client.
module _ {Net : Type 0} where
  abbrev pub init_end :
      Code → (has_kill : Bool) → NetClient Net → Outcome (Bool × OpsPtr × NetClient Net)
  init_end ok has_kill s = done (true, given has_kill, s)
  init_end (minus e) has_kill s =
      h6_client_kill junk >>= (λ own. network_client_kill_unref s >>= (λ s. done (false, junk, s)))

  abbrev pub init_own :
      Option Code
      → (has_kill : Bool) → Bool × NetClient Net
      → Outcome (Bool × OpsPtr × NetClient Net)
  init_own result has_kill (false, s) = done (false, junk, s)
  init_own none has_kill (true, s) = done (true, given has_kill, s)
  init_own (some result) has_kill (true, s) = init_end result has_kill s

  pub h6_client_new :
      (large memory made : Bool)
      → Socket Net
      → Option Code
      → (has_kill : Bool) → Outcome (Bool × OpsPtr × NetClient Net)
  h6_client_new false memory made io result has_kill =
      done (false, junk, close_socket (unallocated io))
  h6_client_new true memory made io result has_kill =
      network_client_new true memory made io true true (some ok) >>= init_own result has_kill
