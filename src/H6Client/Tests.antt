-- ===== src/H6Client/Tests.antt =====
-- A client that recognizes numbers by themselves.
use h.Base.{ℕ, ◌≡◌, false, none, some, List, [], ◌∷◌, get_elem?, if◌then◌else◌}
use h.Errno.{Code, ok, minus, eagain}
use h.H6Client.{Handler, H6ClientOps, h6_client_handle_msg, network_client_msg_recv}
use h.H6Client.Table.{table, answer, id_of, network_client_msg_recv_lem}

-- A function that keeps the messages it is given.
kept : Code → Handler (List ℕ) ℕ
kept code m s = (code, m ∷ s)

abbrev ops : H6ClientOps (List ℕ) ℕ
ops = record {
  init = none;
  recognize = some (λ m. m);
  on_setup_channel = some (kept ok);
  on_response = none;
  on_data = some (kept (minus eagain));
  on_register = none;
  on_heart_beat = some (kept ok);
}

network_client_msg_recv_lem_example :
    network_client_msg_recv false (some (h6_client_handle_msg (some ops))) 3 (1 ∷ [])
    ≡ (if false then (ok, 1 ∷ []) else answer (get_elem? (table ops) (id_of ops 3)) 3 (1 ∷ []))
network_client_msg_recv_lem_example = network_client_msg_recv_lem false ops 3 (1 ∷ [])
