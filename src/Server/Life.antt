-- ===== src/Server/Life.antt =====
-- Making, running and killing a server.
use h.Base.{
  ℕ, suc, ◌+◌, ◌-◌, ◌<◌, ◌≡◌, refl, ap, ◌∙◌, Bool, true, false, none, some, List, [], length, ◌==◌,
  if◌then◌else◌, arith,
}
use h.Errno.{ok, minus, einval}
use h.Links.Joins.{IsRing}
use h.Client.{done, fault, put, ◌>>=◌}
use h.Client.Empty.{released, client_set_kill_unref-empty}
use h.Client.Ends.{Ends, ends, Ends-bind, Ends-weaken, Ends-done}
use h.Client.Valid.{put-same}
use h.Listener.{Listeners}
use h.Listener.Drain.{
  Held, Drained, lsn_set_kill_unref_lem, lsn_set_unref-last, lsn_set_kill_unref-freed,
}
use h.Server.{
  Server, svr_fin_this, h6_server_unref, kill_listeners, kill_clients, free_sched,
  local_proxy_svr_kill, h6_server_kill, h6_server_kill_unref, h6_server_alloc, init_this,
  server_run, h6_server_set_sched,
}

-- A server that holds a reference to each of its sets, where someone else holds each listener of
-- it, none of which points to a set, and which has no clients.
pub record IsQuiet (s : Server) (lsn_refs cli_refs : ℕ) (xs : List ℕ) : Type 0 where
  pub ops : s.has_ops ≡ true
  pub alive : s.alive ≡ true
  pub listeners : IsRing s.listeners.links s.lsn_set xs
  pub held : Held s.listeners.listeners xs
  pub lsn_free : s.listeners.sets s.lsn_set ≡ some (lsn_refs, false)
  pub lsn_pos : 0 < lsn_refs
  pub clients : IsRing s.clients.links s.cli_set []
  pub cli_free : s.clients.sets s.cli_set ≡ some (cli_refs, false)
  pub cli_pos : 0 < cli_refs

-- The server with what is left of its listeners.
abbrev after_kill : Server → ℕ → Listeners → Server
after_kill s cli_refs w =
    free_sched (record s { listeners = w; clients = released s.clients s.cli_set cli_refs })

kill_clients_lem :
    (s : Server) (rounds lsn_refs cli_refs : ℕ) (xs : List ℕ)
    → IsQuiet s lsn_refs cli_refs xs
    → (w : Listeners)
    → kill_clients (suc rounds) (record s { listeners = w })
      ≡ done (record s { listeners = w; clients = released s.clients s.cli_set cli_refs })
unfolding kill_clients
kill_clients_lem s rounds lsn_refs cli_refs xs quiet w =
    let there : (s.cli_set == 0) ≡ false = ground (arith, quiet.clients.real.0) in
    rw there (
      rw
        (client_set_kill_unref-empty s.clients rounds s.cli_set cli_refs quiet.clients
          quiet.cli_free quiet.cli_pos)
        refl)

-- What `h6_local_proxy_svr_kill` leaves of a server.
pub record Killed (s : Server) (lsn_refs cli_refs : ℕ) (xs : List ℕ) (r : Server) : Type 0 where
  pub refs : r.refs ≡ s.refs
  pub alive : r.alive ≡ true
  pub ops : r.has_ops ≡ true
  pub sched : r.sched ≡ false
  pub scheds : r.scheds ≡ (if s.sched then s.scheds - 1 else s.scheds)
  pub listeners : Drained s.listeners s.lsn_set lsn_refs xs r.listeners
  pub lsn_set : r.lsn_set ≡ s.lsn_set
  pub clients :
      r.clients.sets s.cli_set ≡ (if cli_refs == 1 then none else some (cli_refs - 1, false))

-- `h6_server_kill` of such a server: every listener loses the set's reference, both sets lose the
-- server's and are freed with the last, the scheduler is freed, and the server keeps its references.
pub h6_server_kill_lem :
    (s : Server) (rounds lsn_refs cli_refs : ℕ) (xs : List ℕ)
    → IsQuiet s lsn_refs cli_refs xs
    → length xs < suc rounds
    → Ends (Killed s lsn_refs cli_refs xs) (h6_server_kill (suc rounds) s)
unfolding h6_server_kill local_proxy_svr_kill kill_listeners
h6_server_kill_lem s rounds lsn_refs cli_refs xs quiet enough =
    let there : (s.lsn_set == 0) ≡ false = ground (arith, quiet.listeners.real.0) in
    let (w, e, drained) = Ends-done (
      lsn_set_kill_unref_lem s.listeners (suc rounds) s.lsn_set lsn_refs xs enough quiet.listeners
        quiet.held quiet.lsn_free quiet.lsn_pos) in
    let with_ops : h6_server_kill (suc rounds) s
        ≡ (local_proxy_svr_kill (suc rounds) s >>= (λ s. if s.sched then fault else done s)) =
      rw quiet.ops refl in
    let killed : (local_proxy_svr_kill (suc rounds) s >>= (λ s. if s.sched then fault else done s))
        ≡ done (after_kill s cli_refs w) =
      rw (there, e) (rw (kill_clients_lem s rounds lsn_refs cli_refs xs quiet w) refl) in
    rw (with_ops ∙ killed) (
      ends (record {
        refs = refl;
        alive = quiet.alive;
        ops = quiet.ops;
        sched = refl;
        scheds = refl;
        listeners = drained;
        lsn_set = refl;
        clients = put-same s.cli_set _ (
            put s.cli_set (some (cli_refs, false))
              (put s.cli_set (some (cli_refs, true)) s.clients.sets));
      }))

-- Where someone else holds the server and each listener of its set, none of which points to a set,
-- where it has no clients, and where the rounds are more than the listeners: `h6_server_kill_unref`
-- ends, and leaves the server with a reference less and without a scheduler, which is freed if there
-- was one; each listener has lost the set's reference, and either set the server's, and is freed
-- where that was the last.
pub h6_server_kill_unref_lem :
    (s : Server) (rounds lsn_refs cli_refs : ℕ) (xs : List ℕ)
    → IsQuiet s lsn_refs cli_refs xs
    → length xs < suc rounds
    → 1 < s.refs
    → Ends
        (λ r. Killed (record s { refs = s.refs - 1 }) lsn_refs cli_refs xs r)
        (h6_server_kill_unref (suc rounds) s)
unfolding h6_server_kill_unref h6_server_unref
h6_server_kill_unref_lem s rounds lsn_refs cli_refs xs quiet enough shared =
    Ends-bind (h6_server_kill_lem s rounds lsn_refs cli_refs xs quiet enough) (λ r killed.
      let counted : (r.refs == 0) ≡ false = ground (arith, killed.refs) in
      let more : (r.refs == 1) ≡ false = ground (arith, killed.refs) in
      rw (killed.alive, counted, more)
        (ends (record {
          refs = ground (arith, killed.refs);
          alive = refl;
          ops = killed.ops;
          sched = killed.sched;
          scheds = killed.scheds;
          listeners = killed.listeners;
          lsn_set = killed.lsn_set;
          clients = killed.clients;
        })))

-- A server with the only reference to its set of listeners, of which someone else holds each and none
-- points to a set, without clients: `h6_server_kill_unref` of the last reference to the server frees
-- the set, and then the server's `fin` asks the set whether it is empty. However many listeners there
-- are, none too, this is an access to freed memory.
pub h6_server_kill_unref-last :
    (s : Server) (rounds cli_refs : ℕ) (xs : List ℕ)
    → IsQuiet s 1 cli_refs xs
    → length xs < suc rounds
    → s.refs ≡ 1
    → h6_server_kill_unref (suc rounds) s ≡ fault
unfolding h6_server_kill_unref h6_server_unref svr_fin_this
h6_server_kill_unref-last s rounds cli_refs xs quiet enough single =
    let (r, e, killed) = Ends-done (h6_server_kill_lem s rounds 1 cli_refs xs quiet enough) in
    let counted : (r.refs == 0) ≡ false = ground (arith, killed.refs) in
    let final : (r.refs == 1) ≡ true = ground (arith, killed.refs) in
    let gone : r.listeners.sets r.lsn_set ≡ none =
      ap r.listeners.sets killed.lsn_set ∙ killed.listeners.set_left in
    let eq : h6_server_unref r ≡ fault =
      rw killed.alive (rw (counted, final, killed.ops) (rw gone refl)) in
    rw e eq

-- A server without clients that is not running and has no scheduler, where someone else holds each of
-- its listeners and none points to a set: where `h6_sched_new` makes a scheduler,
-- `h6_local_proxy_server_run` returns 0, a second call returns `-EINVAL` and changes nothing, and
-- `h6_server_kill` with more rounds than listeners ends, with as many schedulers as at first.
-- Where `h6_sched_new` makes none, `-EINVAL` is returned and nothing changes.
pub server_run_lem :
    (s : Server) (rounds lsn_refs cli_refs : ℕ) (xs : List ℕ)
    → IsQuiet s lsn_refs cli_refs xs
    → length xs < suc rounds
    → s.run ≡ false
    → s.sched ≡ false
    → (server_run false s ≡ (minus einval, s))
      × ((server_run true s).0 ≡ ok)
      × ((made : Bool)
          → server_run made (server_run true s).1 ≡ (minus einval, (server_run true s).1))
      × Ends
          (λ r. (r.scheds ≡ s.scheds) × (r.sched ≡ false))
          (h6_server_kill (suc rounds) (server_run true s).1)
unfolding server_run h6_server_set_sched
server_run_lem s rounds lsn_refs cli_refs xs quiet enough stopped unset =
    let running = record s { scheds = s.scheds + 1; sched = true; run = true } in
    let runs : server_run true s ≡ (ok, running) = rw stopped (rw unset refl) in
    let refused : server_run false s ≡ (minus einval, s) = rw stopped refl in
    let still : IsQuiet running lsn_refs cli_refs xs = record {
      ops = quiet.ops;
      alive = quiet.alive;
      listeners = quiet.listeners;
      held = quiet.held;
      lsn_free = quiet.lsn_free;
      lsn_pos = quiet.lsn_pos;
      clients = quiet.clients;
      cli_free = quiet.cli_free;
      cli_pos = quiet.cli_pos;
    } in
    rw (refused, runs)
      (
        refl,
        refl,
        (λ made. refl),
        Ends-weaken (h6_server_kill_lem running rounds lsn_refs cli_refs xs still enough)
            (λ r killed. (ground (arith, killed.scheds), killed.sched)),
      )

kill-freed :
    (s : Server) (rounds : ℕ)
    → s.has_ops ≡ true
    → (s.lsn_set == 0) ≡ false
    → s.listeners.sets s.lsn_set ≡ none
    → h6_server_kill rounds s ≡ fault
unfolding h6_server_kill local_proxy_svr_kill kill_listeners
kill-freed s rounds ops there freed =
    rw ops (rw (there, lsn_set_kill_unref-freed s.listeners rounds s.lsn_set freed) refl)

-- Where `client_set_new` fails and `lsn_set_new` does not, `h6_server_alloc` still makes a server,
-- whose set of listeners is freed: to kill it is an access to that set.
pub h6_server_alloc-no_clients :
    (s : Server) (rounds lsn_set : ℕ)
    → IsRing s.listeners.links lsn_set []
    → s.listeners.sets lsn_set ≡ some (1, false)
    → Ends
        (λ (made, r).
          (made ≡ true)
          × (r.lsn_set ≡ lsn_set)
          × (r.listeners.sets lsn_set ≡ none)
          × (h6_server_kill rounds r ≡ fault))
        (h6_server_alloc lsn_set 0 s)
unfolding h6_server_alloc init_this
h6_server_alloc-no_clients s rounds lsn_set ring free =
    let there : (lsn_set == 0) ≡ false = ground (arith, ring.real.0) in
    let freed = lsn_set_unref-last s.listeners lsn_set ring free in
    rw (there, freed)
      (ends (
        refl,
        refl,
        put-same lsn_set none s.listeners.sets,
        kill-freed _ rounds refl there (put-same lsn_set none s.listeners.sets),
      ))
