-- ===== src/Server/Ports.antt =====
-- Finding and removing the listener of a port.
use h.Base.{
  ℕ, zero, suc, ◌<◌, ◌≡◌, refl, sym, ◌∙◌, inl, inr, true, false, Bool-cases, some, List, [], ◌∷◌,
  ◌++◌, length, ◌==◌, if◌then◌else◌, arith,
}
use h.Links.{Links}
use h.Links.Apart.{Apart, Apart-at, Apart-front}
use h.Links.Joins.{Joins, end-next, first-next, rest-Joins, IsRing}
use h.Client.{done}
use h.Client.Ends.{Ends}
use h.Listener.{Listener, Listeners}
use h.Listener.Valid.{IsLsnSet}
use h.Listener.Removed.{Removed, lsn_set_del_lem}
use h.Server.{find_loop, find_listener_by_port, remove_port}

-- The first of the listeners that has the port, or NULL.
abbrev pub first_bound : (port_of : ℕ → ℕ) → ℕ → List ℕ → ℕ
first_bound port_of port [] = 0
first_bound port_of port (x ∷ xs) = if port_of x == port then x else first_bound port_of port xs

find_loop_lem :
    (m : Links) (port_of : ℕ → ℕ) (rounds set port a : ℕ) (xs : List ℕ)
    → Joins m a xs set
    → Apart set xs
    → length xs < rounds
    → find_loop rounds port_of set port (m.next a) m ≡ done (first_bound port_of port xs)
unfolding find_loop
find_loop_lem m port_of zero set port a xs joins apart enough = absurd (omega arith)
find_loop_lem m port_of (suc k) set port a [] joins apart enough =
    let back : (m.next a == set) ≡ true = ground (arith, end-next joins) in rw back refl
find_loop_lem m port_of (suc k) set port a (x ∷ xs) joins apart enough =
    let other : (x == set) ≡ false = ground (arith, apart.0) in
    let again = find_loop_lem m port_of k set port x xs (rest-Joins joins) apart.1 (omega arith) in
    rw (first-next joins) (
      rw (other, again)
        (elim (Bool-cases (port_of x == port)) [
          | inl has ↦ rw has refl
          | inr differs ↦ rw differs refl
        ]))

-- With more rounds than members, `find_listener_by_port` returns the first member of the set, in the
-- order of its list, whose port is the given one, and NULL where no member has it.
pub find_listener_by_port_lem :
    (m : Links) (port_of : ℕ → ℕ) (rounds set port : ℕ) (xs : List ℕ)
    → IsRing m set xs
    → length xs < rounds
    → find_listener_by_port rounds port_of set port m ≡ done (first_bound port_of port xs)
unfolding find_listener_by_port
find_listener_by_port_lem m port_of rounds set port xs ring enough =
    find_loop_lem m port_of rounds set port set xs ring.joins ring.distinct.0 enough

first_bound-at :
    (port_of : ℕ → ℕ) (port p : ℕ) (xs ys : List ℕ)
    → first_bound port_of port xs ≡ 0
    → Apart 0 xs
    → port_of p ≡ port
    → first_bound port_of port (xs ++ (p ∷ ys)) ≡ p
first_bound-at port_of port p [] ys none_before real bound =
    let has : (port_of p == port) ≡ true = ground arith in rw has refl
first_bound-at port_of port p (x ∷ xs) ys none_before real bound =
    elim (Bool-cases (port_of x == port)) [
      | inl has ↦ absurd (real.0 (sym none_before ∙ rw has refl))
      | inr differs ↦
          let later : first_bound port_of port xs ≡ 0 = ground (arith, none_before, differs) in
          rw differs (first_bound-at port_of port p xs ys later real.1 bound)
    ]

-- With more rounds than members, `h6_local_proxy_server_remove_port` takes the first member of the
-- set that has the port out of it, as `lsn_set_del` takes out a member: the others keep their order,
-- the listener has a reference less, and no other listener changes.
pub remove_port_lem :
    (w : Listeners) (port_of : ℕ → ℕ) (rounds set refs port p : ℕ) (l : Listener) (xs ys : List ℕ)
    → IsLsnSet w set refs (xs ++ (p ∷ ys))
    → length (xs ++ (p ∷ ys)) < rounds
    → first_bound port_of port xs ≡ 0
    → port_of p ≡ port
    → w.listeners p ≡ some l
    → Ends (Removed w set refs p l (xs ++ ys)) (remove_port rounds port_of set port w)
unfolding remove_port
remove_port_lem w port_of rounds set refs port p l xs ys valid enough none_before bound alive =
    let real = valid.ring.real.1 in
    let this : (p == 0) ≡ false = ground (arith, Apart-at 0 p xs ys real) in
    let found =
      find_listener_by_port_lem w.links port_of rounds set port (xs ++ (p ∷ ys)) valid.ring
        enough in
    let first =
      first_bound-at port_of port p xs ys none_before (Apart-front 0 xs (p ∷ ys) real) bound in
    rw found (rw first (rw this (lsn_set_del_lem w set refs p l xs ys valid alive)))

-- With more rounds than members, where no member has the port, `h6_local_proxy_server_remove_port`
-- changes nothing.
pub remove_port-none :
    (w : Listeners) (port_of : ℕ → ℕ) (rounds set refs port : ℕ) (xs : List ℕ)
    → IsLsnSet w set refs xs
    → length xs < rounds
    → first_bound port_of port xs ≡ 0
    → remove_port rounds port_of set port w ≡ done w
unfolding remove_port
remove_port-none w port_of rounds set refs port xs valid enough none_has =
    rw (find_listener_by_port_lem w.links port_of rounds set port xs valid.ring enough)
      (rw none_has refl)
