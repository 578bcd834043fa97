-- ===== src/H6Client/Table.antt =====
-- The messages by a table.
use h.Base.{
  ℕ, zero, suc, ◌≡◌, refl, Bool, true, false, Option, none, some, List, [], ◌∷◌, get_elem?, ◌==◌,
  if◌then◌else◌, arith,
}
use h.Errno.{ok, minus, eperm}
use h.H6Client.{
  Handler, H6ClientOps, h6_client_recognize, call_handler, h6_client_handle_msg,
  network_client_msg_recv, recognized, called,
}

recognized_lem :
    {Msg : Type 0} (m : Msg) (o : Option (Msg → ℕ))
    → recognized o m ≡ (elim o [ none ↦ 0 | some f ↦ f m ])
recognized_lem m none = refl
recognized_lem m (some f) = refl

module _ {S Msg : Type 0} where
  -- The functions by the number of the message; there is none for an unknown message.
  abbrev pub table : H6ClientOps S Msg → List (Option (Handler S Msg))
  table ops =
      none ∷ ops.on_setup_channel ∷ ops.on_response ∷ ops.on_data ∷ ops.on_register
      ∷ ops.on_heart_beat ∷ []

  abbrev pub answer : Option (Option (Handler S Msg)) → Handler S Msg
  answer (some (some f)) m s = f m s
  answer (some none) m s = (minus eperm, s)
  answer none m s = (minus eperm, s)

  abbrev pub id_of : H6ClientOps S Msg → Msg → ℕ
  id_of ops m = elim ops.recognize [ none ↦ 0 | some f ↦ f m ]

  called_lem : (f : Option (Handler S Msg)) (m : Msg) (s : S) → called f m s ≡ answer (some f) m s
  called_lem none m s = refl
  called_lem (some f) m s = refl

  by_id :
      (ops : H6ClientOps S Msg) (m : Msg) (s : S) (id : ℕ)
      → (if id == 1
          then called ops.on_setup_channel m s
          else if id == 2
          then called ops.on_response m s
          else if id == 3
          then called ops.on_data m s
          else if id == 4
          then called ops.on_register m s
          else if id == 5
          then called ops.on_heart_beat m s
          else (minus eperm, s))
        ≡ answer (get_elem? (table ops) id) m s
  by_id ops m s zero = refl
  by_id ops m s (suc zero) = called_lem ops.on_setup_channel m s
  by_id ops m s (suc (suc zero)) = called_lem ops.on_response m s
  by_id ops m s (suc (suc (suc zero))) = called_lem ops.on_data m s
  by_id ops m s (suc (suc (suc (suc zero)))) = called_lem ops.on_register m s
  by_id ops m s (suc (suc (suc (suc (suc zero))))) = called_lem ops.on_heart_beat m s
  by_id ops m s (suc (suc (suc (suc (suc (suc id)))))) = ground arith

  -- A message for a client, with the state that the client's functions read and change. Where the client
  -- is not killed, the message and the state are given to the function that the message's number, as
  -- `recognize` gives it, has in the table, to no other and once: the code returned and the state left
  -- are that function's. Where it has none there, where the number is none of the table's, and where there
  -- is no `recognize`, the code is `-EPERM` and the state is left as it was. For a killed client the code
  -- is 0 and the state is left as it was, so that none of them has done anything.
  pub network_client_msg_recv_lem :
      (killed : Bool) (ops : H6ClientOps S Msg) (m : Msg) (s : S)
      → network_client_msg_recv killed (some (h6_client_handle_msg (some ops))) m s
        ≡ (if killed then (ok, s) else answer (get_elem? (table ops) (id_of ops m)) m s)
  unfolding network_client_msg_recv h6_client_handle_msg h6_client_recognize call_handler
  network_client_msg_recv_lem true ops m s = refl
  network_client_msg_recv_lem false ops m s =
      rw (recognized_lem m ops.recognize) (by_id ops m s (id_of ops m))
