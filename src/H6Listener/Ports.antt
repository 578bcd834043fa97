-- ===== src/H6Listener/Ports.antt =====
-- `h6_listener_set_port` on every branch.
use h.Base.{
  ℕ, ◌<◌, ◌≡◌, ◌≢◌, refl, sym, ◌⊎◌, inl, inr, ◌∙◌, Bool, true, false, Bool-cases, Option, none,
  some, leb, ◌==◌, ◌&&◌, ==-eq, ==-refl, arith,
}
use h.Errno.{Code, ok, minus}
use h.UnixSock.{Sock, fd, failed, Fds, mark, unix_sock_bind, unix_sock_close}
use h.Sched.{Sched, sched_add}
use h.Client.{put, done}
use h.Client.Ends.{Ends, ends}
use h.Client.Valid.{put-same, put-other}
use h.H6Listener.{
  H6Listener, H6Ev, Host, h6_sched_add, listen_on, bound_to, h6_listener_set_port, has_sched,
  new_ev,
}

-- A descriptor that is closed again.
mark-twice :
    (s : ℕ) (fds : Fds) → fds s ≡ false → (q : ℕ) → mark s false (mark s true fds) q ≡ fds q
mark-twice s fds closed q = elim (Bool-cases (q == s)) [
  | inl same ↦ rw (same, ==-eq q s same) (sym closed)
  | inr other ↦ rw other refl
]

-- A socket that no one has, outside the standard descriptors.
abbrev pub IsNew : Sock → Fds → Type 0
IsNew (failed e) fds = Unit
IsNew (fd s) fds = (2 < s) × (fds s ≡ false)

-- What `h6_listener_set_port` leaves where it returns 0.
pub record Listens (w : Host) (p port ev s : ℕ) (lt : H6Listener) (before : Sched) (r : Host)
    : Type 0 where
  pub scheduled : w.sched ≡ some before
  pub owned : lt.owner ≡ true
  pub listener :
      r.listeners p ≡ some (record lt { port = port; host = 0; sock = some s; event = ev })
  pub event : r.events ev ≡ some (record { ref_count = 2; attached = true; user_data = p })
  pub sched : r.sched ≡ some (sched_add before ev 1).0
  pub fds : r.fds ≡ mark s true w.fds
  pub fresh : IsNew (fd s) w.fds
  pub other_listeners : (q : ℕ) → q ≢ p → r.listeners q ≡ w.listeners q
  pub other_events : (q : ℕ) → q ≢ ev → r.events q ≡ w.events q

-- What it leaves where it returns an error.
pub record Refuses (w : Host) (ev : ℕ) (lt : H6Listener) (r : Host) : Type 0 where
  pub listeners : r.listeners ≡ w.listeners
  pub sched : r.sched ≡ w.sched
  pub fds : (q : ℕ) → r.fds q ≡ w.fds q
  pub event :
      (r.events ≡ w.events)
      ⊎ ((lt.owner && has_sched w.sched ≡ false) × (r.events ≡ put ev (some new_ev) w.events))

abbrev pub PortSet : Host → (p port ev : ℕ) → H6Listener → Code × Host → Type 0
PortSet w p port ev lt (ok, r) = (s : ℕ) × (sched : Sched) × Listens w p port ev s lt sched r
PortSet w p port ev lt (minus e, r) = Refuses w ev lt r

Sched-cases : (o : Option Sched) → ((s : Sched) × (o ≡ some s)) ⊎ (has_sched o ≡ false)
Sched-cases none = inr refl
Sched-cases (some s) = inl (s, refl)

and-left : (a : Bool) (b : Bool) → a && b ≡ true → a ≡ true
and-left a b h = ground arith

pub close-new :
    (s : ℕ) (fds : Fds) → IsNew (fd s) fds → (q : ℕ) → unix_sock_close s (mark s true fds) q ≡ fds q
unfolding unix_sock_close
close-new s fds (large, closed) q =
    let above : leb s 2 ≡ false = ground arith in rw above (mark-twice s fds closed q)

listen_on_lem :
    (w : Host) (p port ev s : ℕ) (lt : H6Listener) (sched : Sched)
    → w.sched ≡ some sched
    → lt.owner ≡ true
    → IsNew (fd s) w.fds
    → Ends (PortSet w p port ev lt) (
        listen_on p port ev s lt
          (record w { fds = mark s true w.fds; events = put ev (some new_ev) w.events }))
unfolding listen_on h6_sched_add
listen_on_lem w p port ev s lt sched scheduled owned fresh =
    let made = put ev (some new_ev) w.events in
    let called = put ev (some (record new_ev { user_data = p })) made in
    let listening = record lt { port = port; host = 0; sock = some s; event = ev } in
    let attached : H6Ev = record { ref_count = 2; attached = true; user_data = p } in
    let r = record w {
      listeners = put p (some listening) w.listeners;
      events = put ev (some attached) called;
      sched = some (sched_add sched ev 1).0;
      fds = mark s true w.fds;
    } in
    let runs : listen_on p port ev s lt (record w { fds = mark s true w.fds; events = made })
        ≡ done (ok, r) =
      rw (==-refl ev) (rw scheduled refl) in
    rw runs (
      ends (
        s,
        sched,
        record {
          scheduled = scheduled;
          owned = owned;
          listener = put-same p _ w.listeners;
          event = put-same ev _ called;
          sched = refl;
          fds = refl;
          fresh = fresh;
          other_listeners = λ q h. put-other p _ w.listeners q h;
          other_events = λ q h.
              put-other ev _ called q h ∙ put-other ev _ made q h ∙ put-other ev _ w.events q h;
        },
      ))

bound_to_lem :
    (w : Host) (p port ev s : ℕ) (lt : H6Listener)
    → IsNew (fd s) w.fds
    → Ends (PortSet w p port ev lt) (bound_to p port ev lt (fd s, mark s true w.fds) w)
unfolding bound_to
bound_to_lem w p port ev s lt fresh = elim (Bool-cases (ev == 0)) [
  | inl no_event ↦ rw no_event (
      ends (record {
        listeners = refl;
        sched = refl;
        fds = close-new s w.fds fresh;
        event = inl refl;
      }))
  | inr event ↦ rw event (elim (Bool-cases (lt.owner && has_sched w.sched)) [
    | inl scheduled ↦ rw scheduled (elim (Sched-cases w.sched) [
      | inl (sched, there) ↦
          listen_on_lem w p port ev s lt sched there (and-left lt.owner _ scheduled) fresh
      | inr none_there ↦ absurd (ground (arith, none_there, scheduled))
    ])
    | inr missing ↦ rw missing (
        ends (record {
          listeners = refl;
          sched = refl;
          fds = close-new s w.fds fresh;
          event = inr (missing, refl);
        }))
  ])
]

after_bind :
    (w : Host) (p port ev : ℕ) (made : Sock) (bound : Code) (lt : H6Listener)
    → IsNew made w.fds
    → Ends (PortSet w p port ev lt) (bound_to p port ev lt (unix_sock_bind made bound w.fds) w)
unfolding unix_sock_bind bound_to
after_bind w p port ev (failed e) bound lt new =
    ends (record { listeners = refl; sched = refl; fds = λ q. refl; event = inl refl })
after_bind w p port ev (fd s) (minus e) lt new =
    ends
      (record { listeners = refl; sched = refl; fds = mark-twice s w.fds new.1; event = inl refl })
after_bind w p port ev (fd s) ok lt new = bound_to_lem w p port ev s lt new

-- For a listener without a port, `h6_listener_set_port` returns 0 or an error, whatever `socket`,
-- `bind` and `h6_ev_new` answer, provided that a new descriptor was not open and is none of the
-- standard three. With 0 the listener has the port, the socket, which is open, and the event, which
-- is on the server's scheduler with the weight 1, and has the references of the listener and of the
-- loop. With an error no listener and no descriptor and no scheduler has changed, and no event
-- either, except that the new event is left allocated where the listener has no server or the
-- server no scheduler.
pub h6_listener_set_port_lem :
    (w : Host) (p port ev : ℕ) (made : Sock) (bound : Code) (lt : H6Listener)
    → w.listeners p ≡ some lt
    → lt.sock ≡ none
    → IsNew made w.fds
    → Ends (PortSet w p port ev lt) (h6_listener_set_port p port ev made bound w)
unfolding h6_listener_set_port
h6_listener_set_port_lem w p port ev made bound lt alive unset new =
    let goes : h6_listener_set_port p port ev made bound w
        ≡ bound_to p port ev lt (unix_sock_bind made bound w.fds) w =
      rw alive (rw unset refl) in
    rw goes (after_bind w p port ev made bound lt new)
