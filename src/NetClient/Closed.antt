-- ===== src/NetClient/Closed.antt =====
-- The connection of a client is closed or fails, which its watch reports.
use h.Base.{ℕ, ◌+◌, ◌≡◌, Bool, true, List, [], ◌∷◌, ◌==◌, if◌then◌else◌}
use h.Errno.{Errno}
use h.Client.{Outcome, done, fault, ◌>>=◌}
use h.Client.Ends.{Ends}
use h.NetClient.{NetCall, nc_closed, nc_error, NetClient, network_client_kill_unref}

-- What a watch reports.
pub data Report : Type 0 where
  closed : Report
  error : Errno → Report

abbrev pub report_call : Report → NetCall
report_call closed = nc_closed
report_call (error e) = nc_error e

module _ {Net : Type 0} where
  -- `network_client_ref`
  pub network_client_ref : NetClient Net → Outcome (NetClient Net)
  network_client_ref s =
      if s.client_alive
      then if s.client_refs == 0 then fault else done (record s { client_refs = s.client_refs + 1 })
      else fault

  -- `network_client_conn_closed` and `network_client_conn_error`, with whether the client has a function
  -- for the report.
  pub conn_report : Bool → Report → NetClient Net → Outcome (NetClient Net)
  conn_report has r s = network_client_ref s >>= (λ s.
      network_client_kill_unref
        (record s { calls = if has then report_call r ∷ s.calls else s.calls }))

  pub conn_reports : Bool → List Report → NetClient Net → Outcome (NetClient Net)
  conn_reports has [] s = done s
  conn_reports has (r ∷ reports) s = conn_report has r s >>= conn_reports has reports

  -- A client that is killed and has let go of its watch.
  pub record Dead (n k : ℕ) (s : NetClient Net) : Type 0 where
    pub client : s.client_alive ≡ true
    pub refs : s.client_refs ≡ n
    pub killed : s.killed ≡ true
    pub watch : s.watch_alive ≡ true
    pub watch_refs : s.watch_refs ≡ k

  abbrev reported : Bool → Report → NetClient Net → NetClient Net
  reported has r s = record s {
    client_refs = s.client_refs + 1;
    calls = if has then report_call r ∷ s.calls else s.calls;
  }
