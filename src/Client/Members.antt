-- ===== src/Client/Members.antt =====
-- `client_set_add` and `client_set_del`.
use h.Base.{ℕ, ◌<◌, ◌≡◌, ◌≢◌, refl, true, false, Option, some, List, ◌∷◌, ◌++◌, ◌==◌, arith}
use h.Base.Yields.{Yields, yields}
use h.Errno.{Code, ok}
use h.Links.{Links, list_add}
use h.Links.Apart.{Apart}
use h.Links.Insert.{list_add_lem}
use h.Links.Remove.{member-linked, Left, list_del_init_lem}
use h.Client.{
  Client, World, put, unlock, ◌>>=◌, add_node, client_set_add, del_node, client_set_del, with_links,
}
use h.Client.Ends.{Ends, ends}
use h.Client.Valid.{
  put-same, put-other, Members, member, Members-put, Members-at, IsClientSet, lock_lem, unlock_lem,
}

-- What a new member leaves.
pub record Added (w : World) (cs refs c : ℕ) (o : Client) (xs : List ℕ) (r : Code × World)
    : Type 0 where
  pub result : r.0 ≡ ok
  pub set : IsClientSet r.1 cs refs (c ∷ xs)
  pub client : r.1.clients c ≡ some (record o { cs = cs })
  pub others : (q : ℕ) → q ≢ c → r.1.clients q ≡ w.clients q

-- `client_set_add` puts a client that is alive and in no list in front of the members of a set.
pub client_set_add_lem :
    (w : World) (cs refs c : ℕ) (o : Client) (xs : List ℕ)
    → IsClientSet w cs refs xs
    → c ≢ 0
    → Apart c (cs ∷ xs)
    → w.links.next c ≡ c
    → w.clients c ≡ some o
    → 0 < o.ref_count
    → Ends (Added w cs refs c o xs) (client_set_add cs c w)
unfolding client_set_add add_node
client_set_add_lem w cs refs c o xs valid real apart alone alive counted =
    let empty : (w.links.next c == c) ≡ true = ground arith in
    rw (lock_lem w valid.free, empty, alive)
      (rw
        (unlock_lem {held = true}
          (record w {
            sets = put cs (some (refs, true)) w.sets;
            clients = put c (some (record o { cs = cs })) w.clients;
            links = list_add c cs w.links;
          })
          (put-same cs _ w.sets))
        (ends (record {
          result = refl;
          set = record {
            ring = list_add_lem w.links c cs xs valid.ring real apart;
            free = put-same cs _ (put cs (some (refs, true)) w.sets);
            counted = valid.counted;
            members =
                member (put-same c _ w.clients) refl counted
                  (Members-put c _ apart.1 valid.members);
          };
          client = put-same c _ w.clients;
          others = λ q h. put-other c _ w.clients q h;
        })))

-- What a member leaves that is taken out. Its pointer to the set stays.
pub record Removed (w : World) (cs refs c : ℕ) (xs : List ℕ) (r : World) : Type 0 where
  pub set : IsClientSet r cs refs xs
  pub alone : r.links.next c ≡ c
  pub clients : r.clients ≡ w.clients
  pub calls : r.calls ≡ w.calls

del_node-Removed :
    {w : World} {cs refs c : ℕ} {xs : List ℕ} {o : Option Links}
    → Members w.clients cs xs
    → 0 < refs
    → Yields (Left cs c c xs) o
    → Ends
        (Removed w cs refs c xs)
        (with_links (record w { sets = put cs (some (refs, true)) w.sets }) o >>= unlock cs)
del_node-Removed {w} {cs} {refs} members counted (yields {a = m} left) =
    rw
      (unlock_lem {held = true} (record w { sets = put cs (some (refs, true)) w.sets; links = m })
        (put-same cs _ w.sets))
      (ends (record {
        set = record {
          ring = left.ring;
          free = put-same cs _ (put cs (some (refs, true)) w.sets);
          counted = counted;
          members = members;
        };
        alone = left.next;
        clients = refl;
        calls = refl;
      }))

-- `client_set_del` takes a member out, wherever it stands, and keeps the others in their order.
pub client_set_del_lem :
    (w : World) (cs refs c : ℕ) (xs ys : List ℕ)
    → IsClientSet w cs refs (xs ++ (c ∷ ys))
    → Ends (Removed w cs refs c (xs ++ ys)) (client_set_del cs c w)
unfolding client_set_del del_node
client_set_del_lem w cs refs c xs ys valid =
    let linked : (w.links.next c == c) ≡ false = member-linked w.links cs c xs ys valid.ring in
    rw (lock_lem w valid.free, linked)
      (del_node-Removed ((Members-at c xs ys valid.members).1) valid.counted
        (list_del_init_lem w.links cs c xs ys valid.ring))
