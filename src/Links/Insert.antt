-- ===== src/Links/Insert.antt =====
-- `list_add` puts a node in front.
use h.Base.{ℕ, ◌≡◌, ◌≢◌, sym, List, [], ◌∷◌, arith}
use h.Links.{Links, add_between, list_add}
use h.Links.Apart.{Apart, Distinct}
use h.Links.Joins.{Joins, last, link, IsRing, Joins-next, Joins-prev}

add_between-Joins :
    {m : Links} (new h : ℕ) (xs : List ℕ)
    → Apart new (h ∷ xs)
    → Distinct (h ∷ xs)
    → Joins m h xs h
    → Joins (add_between new h (m.next h) m) h (new ∷ xs) h
add_between-Joins {m = m} new h [] apart distinct (last n p) =
    rw n (link (ground arith) (ground arith) (last (ground arith) (ground arith)))
add_between-Joins {m = m} new h (x ∷ xs) apart distinct (link n p rest) = rw n (
    link (ground arith) (ground arith) (
      link (ground arith) (ground arith) (
        Joins-next h new distinct.0 (
          Joins-next new x apart.1 (
            Joins-prev new h apart.1.1 apart.0
              (Joins-prev x new distinct.1.0 (λ e. distinct.0.0 (sym e)) rest))))))

-- On a list of nodes with its head, `list_add` puts a node that is not one of them in front.
pub list_add_lem :
    (m : Links) (new h : ℕ) (xs : List ℕ)
    → IsRing m h xs
    → new ≢ 0
    → Apart new (h ∷ xs)
    → IsRing (list_add new h m) h (new ∷ xs)
unfolding list_add
list_add_lem m new h xs ring real apart = record {
  joins = add_between-Joins new h xs apart ring.distinct ring.joins;
  distinct = (((λ e. apart.0 (sym e)), ring.distinct.0), (apart.1, ring.distinct.1));
  real = (ring.real.0, ((λ e. real (sym e)), ring.real.1));
}

-- The pointer of another node.
pub list_add-others :
    (m : Links) (new h q : ℕ) → q ≢ h → q ≢ new → (list_add new h m).next q ≡ m.next q
unfolding list_add
list_add-others m new h q other away = ground arith
