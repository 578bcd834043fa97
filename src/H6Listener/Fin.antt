-- ===== src/H6Listener/Fin.antt =====
-- The last reference to a listener that has a port, and the event that outlives it.
use h.Base.{
  ℕ, ◌+◌, ◌<◌, ◌≡◌, ◌≢◌, refl, sym, ◌∙◌, ap, true, false, Option, none, some, List, ◌∷◌, length,
  ◌==◌, ==-refl, arith,
}
use h.Base.Words.{u32_mod}
use h.Errno.{Code, ok, minus}
use h.UnixSock.{Sock, unix_sock_close}
use h.Sched.{Sched, sched_add}
use h.Sched.Accounts.{IsValid}
use h.Sched.Remove.{sched_remove-add}
use mathlib.Core.Path.{subst}
use mathlib.Core.Option.{some-injective}
use h.Client.{done, fault, put, ◌>>=◌}
use h.Client.Ends.{Ends, ends, Ends-weaken, Ends-done}
use h.Client.Valid.{put-same, put-other}
use h.H6Listener.{
  H6Listener, H6ListenerOps, H6Ev, HostCall, fin_call, Host, h6_sched_remove, ops_fin,
  h6_listener_on_ev_fin, h6_ev_unref, h6_listener_fin_this, h6_listener_fin, free_listener,
  h6_listener_set_port,
}
use h.H6Listener.Ports.{IsNew, Listens, PortSet, close-new, h6_listener_set_port_lem}

-- Where there are functions, `fin` is one of them.
abbrev pub HasFin : Option H6ListenerOps → Type 0
HasFin none = Unit
HasFin (some ops) = ops.fin ≡ true

abbrev fin_calls : ℕ → Option H6ListenerOps → List HostCall → List HostCall
fin_calls p none calls = calls
fin_calls p (some ops) calls = fin_call p ∷ calls

ops_fin_lem :
    (p : ℕ) (lt : H6Listener) (o : Option H6ListenerOps) (w : Host)
    → lt.ops ≡ o
    → HasFin o
    → ops_fin p lt w ≡ done (record w { calls = fin_calls p o w.calls })
unfolding ops_fin
ops_fin_lem p lt none w same has = rw same refl
ops_fin_lem p lt (some ops) w same has = rw same (rw has refl)

-- The scheduler can take one more event.
pub record HasRoom (s : Sched) : Type 0 where
  pub valid : IsValid s
  pub loops : 0 < length s.loops
  pub total : s.total_weight + 1 < u32_mod

-- The event that the loop still holds: a reference for each of the two requests.
abbrev pub left_over : ℕ → H6Ev
left_over p = record { ref_count = 2; attached = true; user_data = p }

-- What is left.
pub record Freed (w : Host) (p ev : ℕ) (r : Host) : Type 0 where
  pub listener : r.listeners p ≡ none
  pub others : (q : ℕ) → q ≢ p → r.listeners q ≡ w.listeners q
  pub fds : (q : ℕ) → r.fds q ≡ w.fds q
  pub sched : r.sched ≡ w.sched
  pub event : r.events ev ≡ some (left_over p)
  pub other_events : (q : ℕ) → q ≢ ev → r.events q ≡ w.events q

-- The event leaves the scheduler, and loses the listener's reference.
drop_event :
    (w : Host) (p ev : ℕ) (before : Sched)
    → HasRoom before
    → w.sched ≡ some (sched_add before ev 1).0
    → w.events ev ≡ some (left_over p)
    → (h6_sched_remove ev w >>= h6_ev_unref ev)
      ≡ done (record w {
        sched = some before;
        events =
            put ev
              (some (left_over p))
              (put ev (some (record { ref_count = 3; attached = true; user_data = p })) w.events);
      })
unfolding h6_sched_remove h6_ev_unref
drop_event w p ev before room there event = rw there (
    rw (sched_remove-add before ev 1 room.valid room.loops room.total)
      (rw event (rw (==-refl ev) refl)))

free_lem :
    (w r : Host) (p port ev s : ℕ) (lt : H6Listener) (before : Sched)
    → Listens w p port ev s lt before r
    → HasFin lt.ops
    → HasRoom before
    → ev ≢ 0
    → Ends (Freed w p ev) (free_listener p r)
unfolding free_listener h6_listener_fin h6_listener_fin_this
free_lem w r p port ev s lt before listens has room real =
    let listening = record lt { port = port; host = 0; sock = some s; event = ev } in
    let called = record r { calls = fin_calls p lt.ops r.calls } in
    let there : (ev == 0) ≡ false = ground arith in
    let gone = put ev (some (record { ref_count = 3; attached = true; user_data = p })) r.events in
    rw (listens.listener, ops_fin_lem p listening lt.ops r refl has)
      (rw (there, listens.owned)
        (rw (drop_event called p ev before room listens.sched listens.event) (
          ends (record {
            listener = put-same p none r.listeners;
            others = λ q h. put-other p none r.listeners q h ∙ listens.other_listeners q h;
            fds = λ q.
                ap (λ f. unix_sock_close s f q) listens.fds ∙ close-new s w.fds listens.fresh q;
            sched = sym listens.scheduled;
            event = put-same ev (some (left_over p)) gone;
            other_events = λ q h.
                put-other ev _ gone q h ∙ put-other ev _ r.events q h ∙ listens.other_events q h;
          }))))

abbrev pub AfterPort : Host → (p ev : ℕ) → Code × Host → Type 0
AfterPort w p ev (ok, r) = Ends (Freed w p ev) (free_listener p r)
AfterPort w p ev (minus e, r) = Unit

after :
    (w : Host) (p port ev : ℕ) (lt : H6Listener) (before : Sched)
    → w.sched ≡ some before
    → HasRoom before
    → HasFin lt.ops
    → ev ≢ 0
    → (t : Code × Host) → PortSet w p port ev lt t
    → AfterPort w p ev t
after w p port ev lt before there room has real (ok, r) (s, sched, listens) =
    let same : sched ≡ before = some-injective sched before (sym listens.scheduled ∙ there) in
    free_lem w r p port ev s lt sched listens has (subst HasRoom (sym same) room) real
after w p port ev lt before there room has real (minus e, r) refuses = tt

-- Where `h6_listener_set_port` of a listener without a port returns 0, with a socket that was not
-- open and is none of the standard three, and the last reference to the listener is dropped then: its
-- memory and its socket are free, the scheduler is as it was before, and what is left is the event
-- with the two references of the loop, for the requests to add and to remove it. No other listener,
-- descriptor or event has changed. The scheduler has a loop, valid accounts and room for the weight,
-- and the listener's functions have a `fin`, if there are any.
pub free-set_port :
    (w : Host) (p port ev : ℕ) (made : Sock) (bound : Code) (lt : H6Listener) (before : Sched)
    → w.listeners p ≡ some lt
    → lt.sock ≡ none
    → IsNew made w.fds
    → w.sched ≡ some before
    → HasRoom before
    → HasFin lt.ops
    → ev ≢ 0
    → Ends (AfterPort w p ev) (h6_listener_set_port p port ev made bound w)
free-set_port w p port ev made bound lt before alive unset new there room has real =
    Ends-weaken (h6_listener_set_port_lem w p port ev made bound lt alive unset new)
      (after w p port ev lt before there room has real)

-- The loop gives its two references back.
released :
    (w r : Host) (p ev : ℕ) → p ≢ 0 → Freed w p ev r → (h6_ev_unref ev r >>= h6_ev_unref ev) ≡ fault
unfolding h6_ev_unref h6_listener_on_ev_fin
released w r p ev real freed =
    let user : (p == 0) ≡ false = ground arith in
    rw freed.event (rw (==-refl ev) (rw (user, freed.listener) refl))

abbrev pub AfterRelease : (p ev : ℕ) → Code × Host → Type 0
AfterRelease p ev (ok, r) = (free_listener p r >>= h6_ev_unref ev >>= h6_ev_unref ev) ≡ fault
AfterRelease p ev (minus e, r) = Unit

after-released :
    (w : Host) (p ev : ℕ) (t : Code × Host) → p ≢ 0 → AfterPort w p ev t → AfterRelease p ev t
after-released w p ev (ok, r) real freed =
    let (t, e, left) = Ends-done freed in rw e (released w t p ev real left)
after-released w p ev (minus e, r) real freed = tt

-- Under the same conditions, where `h6_listener_set_port` returns 0 and the last reference to the
-- listener is dropped, the loop that gives its two references to the event back calls
-- `h6_listener_on_ev_fin`, which reads the listener that is freed.
pub free-released :
    (w : Host) (p port ev : ℕ) (made : Sock) (bound : Code) (lt : H6Listener) (before : Sched)
    → w.listeners p ≡ some lt
    → lt.sock ≡ none
    → IsNew made w.fds
    → w.sched ≡ some before
    → HasRoom before
    → HasFin lt.ops
    → ev ≢ 0
    → p ≢ 0
    → Ends (AfterRelease p ev) (h6_listener_set_port p port ev made bound w)
free-released w p port ev made bound lt before alive unset new there room has real user =
    Ends-weaken (free-set_port w p port ev made bound lt before alive unset new there room has real)
      (λ t freed. after-released w p ev t user freed)
