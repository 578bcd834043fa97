-- ===== src/Heap/Chain.antt =====
-- Doubly linked segments and their footprints.
use mathlib.Core.Bool.{or_assoc}
use h.Base.{
  ◌≡◌, refl, Bool, true, false, ◌||◌, Option, none, some, List, [], ◌∷◌, ◌++◌, arith, ◌==◌,
}
use h.Heap.{Ptr, list_node, ListNode, Memory, put}
use h.Heap.Cell.{Holds, Holds-put}

-- What a list stands for: the address and the value of each node, in order.
abbrev pub Items : Type 0
Items = List (Ptr × Ptr)

abbrev pub has : Ptr → Items → Bool
has a [] = false
has a ((p, _) ∷ xs) = (a == p) || has a xs

-- No address is in both.
abbrev pub Apart : Items → Items → Type 0
Apart xs ys = (a : Ptr) → has a xs ≡ true → has a ys ≡ false

pub has-append : (a : Ptr) (xs ys : Items) → has a (xs ++ ys) ≡ (has a xs || has a ys)
has-append a [] ys = refl
has-append a (x ∷ xs) ys = rw (has-append a xs ys, or_assoc)

-- From `first`, whose `prev` is `before`, the nodes of the list lead to `last`, whose `next` is
-- `after`; the addresses are distinct. Of no node, `last` is `before` and `first` is `after`.
pub data Chain (h : Memory) (last after : Ptr) : (before first : Ptr) → Items → Type 0 where
  stop : Chain h last after last after []
  link :
      {b p q v : Ptr} {xs : Items}
      → Holds h p v q b
      → has p xs ≡ false
      → Chain h last after p q xs
      → Chain h last after b p ((p, v) ∷ xs)

pub Chain-nil :
    {h : Memory} {last after b p : Ptr} → Chain h last after b p [] → (b ≡ last) × (p ≡ after)
Chain-nil stop = (refl, refl)

-- A chain survives what spares its own addresses.
pub Chain-frame :
    {h g : Memory} {last after b p : Ptr} {xs : Items}
    → Chain h last after b p xs
    → ((a : Ptr) → has a xs ≡ true → g a ≡ h a)
    → Chain g last after b p xs
Chain-frame stop same = stop
Chain-frame (link {p} e out c) same =
    link (ground (arith, same p)) out (Chain-frame c λ a i. same a (ground arith))

pub Chain-put :
    {h : Memory} {last after b p : Ptr} {xs : Items} (a : Ptr) (n : Option ListNode)
    → Chain h last after b p xs
    → has a xs ≡ false
    → Chain (put a n h) last after b p xs
unfolding put
Chain-put a n c out = Chain-frame c (ground arith)

pub Chain-append :
    {h : Memory} {last after mid_last mid b p : Ptr} {xs ys : Items}
    → Chain h mid_last mid b p xs
    → Chain h last after mid_last mid ys
    → Apart xs ys
    → Chain h last after b p (xs ++ ys)
Chain-append stop d apart = d
Chain-append (link {p} e out c) d apart =
    link e (rw (has-append, out) (apart p (ground arith)))
      (Chain-append c d λ a i. apart a (ground arith))

pub not-has_of_none :
    {h : Memory} {last after b p : Ptr} {xs : Items} (a : Ptr)
    → Chain h last after b p xs
    → h a ≡ none
    → has a xs ≡ false
not-has_of_none a stop unused = refl
not-has_of_none a (link e out c) unused = ground (arith, not-has_of_none a c unused)

-- The node in front, given another predecessor.
pub Chain-set_prev :
    {h : Memory} {last after b p q v : Ptr} {xs : Items} (r : Ptr)
    → Holds h p v q b
    → has p xs ≡ false
    → Chain h last after p q xs
    → Chain (put p (some (list_node v q r)) h) last after r p ((p, v) ∷ xs)
Chain-set_prev {h} {p} {q} {v} r e out c =
    link (Holds-put h v q r e.ne_null) out (Chain-put p _ c out)

-- The node behind, of a chain that has one.
pub record Rear (h : Memory) (last after : Ptr) (xs : Items) : Type 0 where
  pub value : Ptr
  pub before : Ptr
  pub holds : Holds h last value after before
  pub inside : has last xs ≡ true

pub Chain-Rear :
    {h : Memory} {last after b p q v : Ptr} {xs : Items}
    → Holds h p v q b
    → Chain h last after p q xs
    → Rear h last after ((p, v) ∷ xs)
Chain-Rear {b} {v} e stop = record { value = v; before = b; holds = e; inside = ground arith }
Chain-Rear e (link e' out c) =
    let r = Chain-Rear e' c in
    record {
      value = r.value;
      before = r.before;
      holds = r.holds;
      inside = ground (arith, r.inside);
    }

-- The node behind, given another successor.
pub Chain-set_next :
    {h : Memory} {last after b p q v w d : Ptr} {xs : Items} (r : Ptr)
    → Holds h last w after d
    → Holds h p v q b
    → has p xs ≡ false
    → Chain h last after p q xs
    → Chain (put last (some (list_node w r d)) h) last r b p ((p, v) ∷ xs)
unfolding put
Chain-set_next {h} {last} {b} {p} {v} {w} {d} r rear e out stop =
    link (record { ne_null = e.ne_null; here = ground arith }) out stop
Chain-set_next r rear e out (link e' out' c) =
    let i = (Chain-Rear e' c).inside in
    link (record { ne_null = e.ne_null; here = ground arith }) out (Chain-set_next r rear e' out' c)
