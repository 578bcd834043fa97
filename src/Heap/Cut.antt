-- ===== src/Heap/Cut.antt =====
-- A chain cut at one of its nodes, and joined again without it.
use h.Base.{◌≡◌, refl, false, [], ◌∷◌, ◌++◌, arith}
use h.Heap.{Ptr, Memory}
use h.Heap.Cell.{Holds}
use h.Heap.Chain.{Items, has, has-append, Apart, Chain, stop, link}

pub record Cut (h : Memory) (last after b f p v : Ptr) (xs ys : Items) : Type 0 where
  pub prev : Ptr
  pub next : Ptr
  pub front : Chain h prev p b f xs
  pub holds : Holds h p v next prev
  pub rear : Chain h last after p next ys
  pub not_front : has p xs ≡ false
  pub not_rear : has p ys ≡ false
  pub apart : Apart xs ys

pub Chain-Cut :
    {h : Memory} {last after b f p v : Ptr} {ys : Items} (xs : Items)
    → Chain h last after b f (xs ++ (p, v) ∷ ys)
    → Cut h last after b f p v xs ys
Chain-Cut [] (link {b} {q} e out c) = record {
  prev = b;
  next = q;
  front = stop;
  holds = e;
  rear = c;
  not_front = refl;
  not_rear = out;
  apart = λ a i. cc;
}
Chain-Cut {p} {v} {ys} ((q, w) ∷ xs) (link e out c) =
    let cut = Chain-Cut xs c in
    let sides = has-append q xs ((p, v) ∷ ys) in
    record {
      prev = cut.prev;
      next = cut.next;
      front = link e (ground (arith, sides)) cut.front;
      holds = cut.holds;
      rear = cut.rear;
      not_front = ground (arith, sides, cut.not_front);
      not_rear = cut.not_rear;
      apart = λ a i. ground (arith, sides, cut.apart a);
    }
