-- ===== src/Client/Unref.antt =====
-- `client_kill_unref` of a member whose set is not locked.
use h.Base.{
  ℕ, ◌-◌, ◌<◌, ◌≡◌, ◌≢◌, refl, sym, ap, ◌∙◌, inl, inr, true, false, Bool-cases, Option, none, some,
  List, ◌∷◌, ◌++◌, ◌==◌, if◌then◌else◌, arith,
}
use mathlib.Core.Path.{subst}
use mathlib.Core.Option.{some-injective}
use h.Links.Apart.{Apart, Apart-append, Apart-at, Distinct-at}
use h.Client.{
  Client, Call, kill_call, fin_call, World, ◌>>=◌, has, call, obj_free, obj_unref, client_unref,
  client_set_del, self_kill, client_kill, client_kill_unref,
}
use h.Client.Ends.{Ends, ends, Ends-bind, Ends-weaken}
use h.Client.Valid.{put-same, put-other, Members-put, Members-at, IsClientSet}
use h.Client.Members.{client_set_del_lem}

-- The calls of the client's own functions.
abbrev pub calls_kill : ℕ → Client → List Call → List Call
calls_kill p c calls = if has (λ o. o.kill) c.ops then kill_call p ∷ calls else calls

abbrev pub calls_fin : ℕ → Client → List Call → List Call
calls_fin p c calls =
    if c.ref_count == 1 then if has (λ o. o.fin) c.ops then fin_call p ∷ calls else calls else calls

-- What is left of a client that loses a reference.
abbrev pub less_one : Client → Option Client
less_one c = if c.ref_count == 1 then none else some (record c { ref_count = c.ref_count - 1 })

pub record Dropped (w : World) (cs refs c : ℕ) (o : Client) (xs : List ℕ) (before : List Call)
    (r : World) : Type 0 where
  pub set : IsClientSet r cs refs xs
  pub client : r.clients c ≡ less_one o
  pub others : (q : ℕ) → q ≢ c → r.clients q ≡ w.clients q
  pub calls : r.calls ≡ calls_fin c o before

client_unref-Dropped :
    (w : World) (cs refs c : ℕ) (o : Client) (xs : List ℕ)
    → IsClientSet w cs refs xs
    → Apart c xs
    → c ≢ 0
    → w.links.next c ≡ c
    → w.clients c ≡ some o
    → 0 < o.ref_count
    → Ends (Dropped w cs refs c o xs w.calls) (client_unref c w)
unfolding client_unref obj_unref obj_free
client_unref-Dropped w cs refs c o xs valid apart real alone alive pos =
    let some_client : (c == 0) ≡ false = ground arith in
    let counted : (o.ref_count == 0) ≡ false = ground arith in
    let empty : (w.links.next c == c) ≡ true = ground arith in
    elim (Bool-cases (o.ref_count == 1)) [
      | inl final ↦
          rw (some_client, alive, counted, final, empty)
            (ends (record {
              set = record {
                ring = valid.ring;
                free = valid.free;
                counted = valid.counted;
                members = Members-put c none apart valid.members;
              };
              client = put-same c none w.clients ∙ rw final refl;
              others = λ q h. put-other c none w.clients q h;
              calls = rw final refl;
            }))
      | inr shared ↦
          rw (some_client, alive, counted, shared)
            (ends (record {
              set = record {
                ring = valid.ring;
                free = valid.free;
                counted = valid.counted;
                members = Members-put c _ apart valid.members;
              };
              client = put-same c _ w.clients ∙ rw shared refl;
              others = λ q h. put-other c _ w.clients q h;
              calls = rw shared refl;
            }))
    ]

del_unref-Dropped :
    (w : World) (cs refs c : ℕ) (o : Client) (xs ys : List ℕ)
    → IsClientSet w cs refs (xs ++ (c ∷ ys))
    → w.clients c ≡ some o
    → 0 < o.ref_count
    → 0 ≢ c
    → Ends (Dropped w cs refs c o (xs ++ ys) w.calls) (client_set_del cs c w >>= client_unref c)
del_unref-Dropped w cs refs c o xs ys valid alive pos real =
    let (front, back) = Distinct-at c xs ys valid.ring.distinct.1 in
    Ends-bind (client_set_del_lem w cs refs c xs ys valid) (λ r removed.
      Ends-weaken
        (client_unref-Dropped r cs refs c o (xs ++ ys) removed.set (Apart-append c xs ys front back)
          (λ q. real (sym q)) removed.alone (ap (λ f. f c) removed.clients ∙ alive) pos)
        (λ t dropped. record {
          set = dropped.set;
          client = dropped.client;
          others = λ q h. dropped.others q h ∙ ap (λ f. f q) removed.clients;
          calls = dropped.calls ∙ ap (calls_fin c o) removed.calls;
        }))

self_kill-del :
    (w : World) (p cs : ℕ) (o : Client)
    → w.clients p ≡ some o
    → o.cs ≡ cs
    → 0 ≢ cs
    → self_kill p w ≡ client_set_del cs p w
unfolding self_kill
self_kill-del w p cs o alive knows real =
    let some_set : (cs == 0) ≡ false = ground arith in rw (alive, knows, some_set) refl

called-IsClientSet :
    (w : World) (cs refs : ℕ) (xs : List ℕ) {k : Call}
    → IsClientSet w cs refs xs
    → IsClientSet (call k w) cs refs xs
called-IsClientSet w cs refs xs valid = record {
  ring = valid.ring;
  free = valid.free;
  counted = valid.counted;
  members = valid.members;
}

-- `client_kill_unref` of a member whose set is not locked calls the client's `kill`, takes it out of
-- the set, keeping the other members in their order, and drops a reference; with the last one the
-- client's `fin` is called and the client is freed. No other client changes.
pub client_kill_unref_lem :
    (w : World) (cs refs c : ℕ) (o : Client) (xs ys : List ℕ)
    → IsClientSet w cs refs (xs ++ (c ∷ ys))
    → w.clients c ≡ some o
    → Ends (Dropped w cs refs c o (xs ++ ys) (calls_kill c o w.calls)) (client_kill_unref c w)
unfolding client_kill_unref client_kill
client_kill_unref_lem w cs refs c o xs ys valid alive =
    let real = Apart-at 0 c xs ys valid.ring.real.1 in
    let ((found, there, knows, pos), others) = Members-at c xs ys valid.members in
    let same : found ≡ o = some-injective found o (sym there ∙ alive) in
    let known : o.cs ≡ cs = sym (ap (λ k. k.cs) same) ∙ knows in
    let counted : 0 < o.ref_count = subst (λ k. 0 < k.ref_count) same pos in
    rw alive (elim (Bool-cases (has (λ k. k.kill) o.ops)) [
      | inl loud ↦ rw loud (
          rw (self_kill-del (call (kill_call c) w) c cs o alive known valid.ring.real.0) (
            Ends-weaken
              (del_unref-Dropped (call (kill_call c) w) cs refs c o xs ys
                (called-IsClientSet w cs refs _ valid) alive counted real)
              (λ r d. record {
                set = d.set;
                client = d.client;
                others = d.others;
                calls = d.calls;
              })))
      | inr silent ↦ rw silent (
          rw (self_kill-del w c cs o alive known valid.ring.real.0)
            (del_unref-Dropped w cs refs c o xs ys valid alive counted real))
    ])
