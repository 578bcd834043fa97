-- ===== src/EvLoop/Script.antt =====
-- Any sequence of what users and the loop's thread do, each under the loop's lock.
use h.Base.{
  ℕ, ◌<◌, ◌≡◌, refl, inl, inr, true, false, Bool-cases, Option, some, List, [], ◌∷◌, arith,
}
use h.Base.Yields.{Yields, yields, ◌>>=◌, Yields-some, Yields-bind}
use h.EvLoop.{
  Event, ops_quit, EvLoop, ref, unref, loop_quit, loop_attach, loop_remove, modify_event,
}
use h.EvLoop.Refs.{held, Counted, Few, Same, Counted-same}
use h.EvLoop.Requests.{IsCounted, push-IsCounted, loop_attach_lem, loop_remove_lem}
use h.EvLoop.Users.{more, fewer, user_ref_lem}
use h.EvLoop.Steps.{force_woken_up}
use h.EvLoop.Steps.Callbacks.{loop_run, Callback, event_of, call_back, call_back_lem}
use h.EvLoop.Steps.Exec.{AllKept, force_woken_up_lem}

-- What a user asks for, with an event; the loop's thread that runs, wakes up, and what it does for an
-- event.
pub data Request : Type 0 where
  take drop attach remove modify : ℕ → Request
  quit run wake : Request
  back : Callback → Request

-- The loop, and how many references users have to each event.
abbrev pub Shared : Type 0
Shared = (ℕ → ℕ) × EvLoop

abbrev with_users : (ℕ → ℕ) → Option EvLoop → Option Shared
with_users u o = o >>= (λ s. some (u, s))

unfoldable pub request : Request → Shared → Option Shared
request (take e) (u, s) = with_users (more e u) (ref e s)
request (drop e) (u, s) = with_users (fewer e u) (unref e s)
request (attach e) (u, s) = loop_attach e s >>= (λ (attached, s). some (u, s))
request (remove e) (u, s) = with_users u (loop_remove e s)
request (modify e) (u, s) = with_users u (modify_event e s)
request quit (u, s) = some (u, loop_quit s)
request wake (u, s) = with_users u (force_woken_up s)
request run (u, s) = some (u, loop_run s)
request (back c) (u, s) = with_users u (call_back c s)

pub run_requests : List Request → Shared → Option Shared
run_requests [] t = some t
run_requests (r ∷ rs) t = request r t >>= run_requests rs

-- What a user may ask for: with a reference of the user's own, an attachment where the event is not
-- attached, and a removal or a change where it is. The loop's thread does something for an event that the
-- loop holds, and wakes up while a user still holds a reference to each event that is to be removed or
-- changed, since it reads the event's count in a trace behind the unref.
abbrev pub May : Request → Shared → Type 0
May (take e) (u, s) = 0 < u e
May (drop e) (u, s) = 0 < u e
May (attach e) (u, s) = (0 < u e) × ((ev : Event) × (s.events e ≡ some ev) × (ev.attached ≡ false))
May (remove e) (u, s) = (0 < u e) × ((ev : Event) × (s.events e ≡ some ev) × (ev.attached ≡ true))
May (modify e) (u, s) = (0 < u e) × ((ev : Event) × (s.events e ≡ some ev) × (ev.attached ≡ true))
May quit t = Unit
May wake (u, s) = AllKept u s.operations
May run t = Unit
May (back c) (u, s) = 0 < held s (event_of c)

-- The same along a run, with few enough references for REF_DEBUG_TEST.
abbrev pub AllMay : List Request → Shared → Type 0
AllMay [] t = Unit
AllMay (r ∷ rs) t =
    May r t × Few t.0 (held t.1) × ((t' : Shared) → request r t ≡ some t' → AllMay rs t')

abbrev pub IsFine : Shared → Type 0
IsFine (u, s) = IsCounted u s

Same-held : {s s' : EvLoop} → Same s s' → (a : ℕ) → held s a ≡ held s' a
Same-held same a = rw (same.ev_list, same.operations) refl

refs-IsFine :
    (u u' : ℕ → ℕ) (s : EvLoop) {o : Option EvLoop}
    → Yields (λ s'. Counted u' (held s) s'.events × Same s s') o
    → Yields IsFine (with_users u' o)
refs-IsFine u u' s (yields (counted, same)) = yields (Counted-same counted (Same-held same))

users-IsFine :
    (u : ℕ → ℕ) {o : Option EvLoop} → Yields (IsCounted u) o → Yields IsFine (with_users u o)
users-IsFine u (yields counted) = yields counted

quit-IsCounted : (u : ℕ → ℕ) (s : EvLoop) → IsCounted u s → IsCounted u (loop_quit s)
unfolding loop_quit
quit-IsCounted u s counted = elim (Bool-cases s.loop_quited) [
  | inl quited ↦ rw quited counted
  | inr runs ↦
      let told = record s { loop_quited = true } in
      rw runs (
        push-IsCounted {s = told} {t = told} ops_quit (Counted-same counted (λ a. omega arith))
          (record { operations = refl; ev_list = refl; loop_quited = refl }))
]

run-IsCounted : (u : ℕ → ℕ) (s : EvLoop) → IsCounted u s → IsCounted u (loop_run s)
unfolding loop_run
run-IsCounted u s counted = elim (Bool-cases s.loop_quited) [
  | inl quited ↦ rw quited counted
  | inr runs ↦ rw runs (elim (Bool-cases s.loop_running) [
    | inl running ↦ rw running counted
    | inr idle ↦ rw idle counted
  ])
]

request_lem :
    (r : Request) (t : Shared)
    → IsFine t
    → May r t
    → Few t.0 (held t.1)
    → Yields IsFine (request r t)
unfolding request
request_lem (take e) (u, s) counted own few =
    refs-IsFine u (more e u) s (user_ref_lem e s counted (omega (arith, few e)) own).0
request_lem (drop e) (u, s) counted own few =
    refs-IsFine u (fewer e u) s (user_ref_lem e s counted (omega (arith, few e)) own).1
request_lem (attach e) (u, s) counted (own, (ev, found, free)) few =
    Yields-bind (loop_attach_lem e s counted (omega (arith, few e)) own found free)
      (λ (b, s') (done, after). yields after)
request_lem (remove e) (u, s) counted (own, (ev, found, there)) few =
    users-IsFine u (loop_remove_lem e s counted (omega (arith, few e)) own found there).0
request_lem (modify e) (u, s) counted (own, (ev, found, there)) few =
    users-IsFine u (loop_remove_lem e s counted (omega (arith, few e)) own found there).1
request_lem quit (u, s) counted may few = yields (quit-IsCounted u s counted)
request_lem wake (u, s) counted may few =
    Yields-bind (force_woken_up_lem s may counted few) (λ s' (after, empty). yields after)
request_lem run (u, s) counted may few = yields (run-IsCounted u s counted)
request_lem (back c) (u, s) counted may few = refs-IsFine u u s (call_back_lem c s counted may)

-- Where each event in memory has one reference for each user's and each place of the loop's, and each
-- request of a sequence is one that a user may make at its time, with fewer references than
-- REF_DEBUG_TEST allows, and where, whenever the loop's thread wakes up, a user still holds a reference to
-- each event that the queue has to be removed or changed: the whole sequence, each part of it taken as a
-- whole, of users that take and drop references, attach, change and remove events and tell the loop to
-- quit, and of the loop's thread that runs, performs what was left to it, with the reads of the count
-- behind each unref, and calls back for the events that it holds, never meets a freed event or a failed
-- assertion, and the references count at its end.
pub run_requests_lem :
    (rs : List Request) (t : Shared) → IsFine t → AllMay rs t → Yields IsFine (run_requests rs t)
unfolding run_requests
run_requests_lem [] t fine all = yields fine
run_requests_lem (r ∷ rs) t fine (may, few, later) =
    let (t', e, fine') = Yields-some (request_lem r t fine may few) in
    rw e (run_requests_lem rs t' fine' (later t' e))
