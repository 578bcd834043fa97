-- ===== src/Links/Remove.antt =====
-- `list_del` and `list_del_init` take a node out.
use h.Base.{ℕ, ◌≡◌, ◌≢◌, refl, sym, ◌∙◌, false, some, List, [], ◌∷◌, ◌++◌, ◌==◌, arith}
use h.Base.Yields.{Yields, yields}
use h.Links.{Links, set, join_ends, list_del, list_del_init}
use h.Links.Apart.{
  Apart, Distinct, Apart-front, Apart-back, Apart-append, Apart-drop, Distinct-drop, Apart-at,
  Distinct-at,
}
use h.Links.Joins.{
  Joins, last, link, IsRing, set-other, set-same, Joins-next, Joins-prev, prev-Apart, next-Apart,
}

-- The memory behind `__list_del`.
abbrev joined : ℕ → Links → Links
joined e m = record {
  next = set (m.prev e) (m.next e) m.next;
  prev = set (m.next e) (m.prev e) m.prev;
}

joined-Joins :
    {m : Links} {a b : ℕ} (e : ℕ) (xs ys : List ℕ)
    → Distinct (a ∷ (xs ++ (e ∷ ys)))
    → Apart b (xs ++ (e ∷ ys))
    → Joins m a (xs ++ (e ∷ ys)) b
    → Joins (joined e m) a (xs ++ ys) b
joined-Joins {m = m} {a} e [] [] distinct apart (link n p (last n' p')) =
    rw (p, n') (last (set-same a _ m.next) (set-same _ a m.prev))
joined-Joins {m = m} {a} e [] (y ∷ ys) distinct apart (link n p (link n' p' rest)) =
    rw (p, n')
      (link (set-same a y m.next) (set-same y a m.prev)
        (Joins-next a y distinct.0.1 (Joins-prev y a distinct.1.1.0 (λ q. apart.1.0 (sym q)) rest)))
joined-Joins {m = m} {a} {b} e (x ∷ xs) ys distinct apart (link n p rest) =
    link
      (set-other (m.prev e) (m.next e) m.next a
          (prev-Apart a e xs ys (distinct.0.0, Apart-front a xs (e ∷ ys) distinct.0.1) rest)
        ∙ n)
      (set-other (m.next e) (m.prev e) m.prev x (
          next-Apart x e xs ys (Apart-back x xs ys (Apart-drop x e xs ys distinct.1.0))
            (λ q. apart.0 (sym q)) rest)
        ∙ p)
      (joined-Joins e xs ys distinct.1 apart.1 rest)

joined-IsRing :
    {m : Links} {h : ℕ} (e : ℕ) (xs ys : List ℕ)
    → IsRing m h (xs ++ (e ∷ ys))
    → IsRing (joined e m) h (xs ++ ys)
joined-IsRing {h = h} e xs ys ring = record {
  joins = joined-Joins e xs ys ring.distinct ring.distinct.0 ring.joins;
  distinct = (Apart-drop h e xs ys ring.distinct.0, Distinct-drop e xs ys ring.distinct.1);
  real = (ring.real.0, Apart-drop 0 e xs ys ring.real.1);
}

-- The pointers of a node outside a list.
pub outside-IsRing :
    {m : Links} {h : ℕ} {xs : List ℕ} (e v w : ℕ)
    → Apart e (h ∷ xs)
    → IsRing m h xs
    → IsRing (record { next = set e v m.next; prev = set e w m.prev }) h xs
outside-IsRing e v w apart ring = record {
  joins = Joins-next e v apart (Joins-prev e w apart.1 apart.0 ring.joins);
  distinct = ring.distinct;
  real = ring.real;
}

-- The node is none of those that stay.
left-Apart :
    {h : ℕ} (e : ℕ) (xs ys : List ℕ) → Distinct (h ∷ (xs ++ (e ∷ ys))) → Apart e (h ∷ (xs ++ ys))
left-Apart {h} e xs ys distinct =
    let (front, back) = Distinct-at e xs ys distinct.1 in
    ((λ q. Apart-at h e xs ys distinct.0 (sym q)), Apart-append e xs ys front back)

join_ends_lem :
    {m : Links} {h : ℕ} (e : ℕ) (xs ys : List ℕ)
    → IsRing m h (xs ++ (e ∷ ys))
    → join_ends (m.prev e) (m.next e) m ≡ some (joined e m)
join_ends_lem {m} {h} e xs ys ring =
    let before : 0 ≢ m.prev e =
      prev-Apart 0 e xs ys (ring.real.0, Apart-front 0 xs (e ∷ ys) ring.real.1) ring.joins in
    let after : 0 ≢ m.next e =
      next-Apart 0 e xs ys (Apart-back 0 xs ys (Apart-drop 0 e xs ys ring.real.1)) ring.real.0
        ring.joins in
    let some_before : (m.prev e == 0) ≡ false = ground arith in
    let some_after : (m.next e == 0) ≡ false = ground arith in rw (some_before, some_after) refl

-- What taking a node out leaves: the others in their order, and the node with its pointers.
pub record Left (h e v : ℕ) (xs : List ℕ) (m : Links) : Type 0 where
  pub ring : IsRing m h xs
  pub next : m.next e ≡ v
  pub prev : m.prev e ≡ v

left :
    {m : Links} {h : ℕ} (e v : ℕ) (xs ys : List ℕ)
    → IsRing m h (xs ++ (e ∷ ys))
    → Left h e v
        (xs ++ ys)
        (record { next = set e v (joined e m).next; prev = set e v (joined e m).prev })
left {m} e v xs ys ring = record {
  ring = outside-IsRing e v v (left-Apart e xs ys ring.distinct) (joined-IsRing e xs ys ring);
  next = set-same e v (joined e m).next;
  prev = set-same e v (joined e m).prev;
}

-- `list_del_init` of a node wherever it stands keeps the others in their order and leaves the node
-- alone.
pub list_del_init_lem :
    (m : Links) (h e : ℕ) (xs ys : List ℕ)
    → IsRing m h (xs ++ (e ∷ ys))
    → Yields (Left h e e (xs ++ ys)) (list_del_init e m)
unfolding list_del_init
list_del_init_lem m h e xs ys ring = rw (join_ends_lem e xs ys ring) (yields (left e e xs ys ring))

-- `list_del` keeps them too, and leaves NULL in both pointers of the node, so that `list_empty` does
-- not hold of it.
pub list_del_lem :
    (m : Links) (h e : ℕ) (xs ys : List ℕ)
    → IsRing m h (xs ++ (e ∷ ys))
    → Yields (Left h e 0 (xs ++ ys)) (list_del e m)
unfolding list_del
list_del_lem m h e xs ys ring = rw (join_ends_lem e xs ys ring) (yields (left e 0 xs ys ring))

-- The node of a member is not alone.
pub member-linked :
    (m : Links) (h c : ℕ) (xs ys : List ℕ) → IsRing m h (xs ++ (c ∷ ys)) → (m.next c == c) ≡ false
member-linked m h c xs ys ring =
    let other =
      next-Apart c c xs ys (Distinct-at c xs ys ring.distinct.1).1
        (λ q. Apart-at h c xs ys ring.distinct.0 (sym q)) ring.joins in
    ground arith

-- What taking a node out leaves alone: the pointer of a node outside the list.
pub list_del_init-frame :
    (m : Links) (h e : ℕ) (xs ys : List ℕ)
    → IsRing m h (xs ++ (e ∷ ys))
    → Yields
        (λ r.
          Left h e e (xs ++ ys) r
          × ((c : ℕ) → Apart c (h ∷ (xs ++ ys)) → c ≢ e → r.next c ≡ m.next c))
        (list_del_init e m)
unfolding list_del_init
list_del_init-frame m h e xs ys ring = rw (join_ends_lem e xs ys ring) (
    yields (
      left e e xs ys ring,
      λ c apart other.
          set-other e e (joined e m).next c other
          ∙ set-other (m.prev e) (m.next e) m.next c
              (prev-Apart c e xs ys (apart.0, Apart-front c xs ys apart.1) ring.joins),
    ))
