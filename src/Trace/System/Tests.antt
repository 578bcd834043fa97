-- ===== src/Trace/System/Tests.antt =====
-- A line that goes through the two threads, and a call that waits.
use h.Base.{◌≡◌, refl, inl, false, some, [], ◌∷◌, arith}
use h.Trace.{
  Ring, empty_ring, get_free_space, get_used_space, advance_read, ring_read, advance_write,
  ring_write, print_round,
}
use h.Trace.Valid.{IsValid, contents}
use h.Trace.System.{
  System, wake, print, go_on, call_ready, write, post, initial, Reach, here, next, AllTidy,
}
use h.Trace.System.Delivered.{in_order_lem, delivered_lem}

abbrev written : Ring
written = ring_write (empty_ring 4096) (65 ∷ [])

abbrev posted : System
posted = record (initial 4096) { ring = written; sem = 1; sent = 65 ∷ [] }

posted-Reach : Reach 4096 posted
unfolding get_free_space ring_write advance_write
posted-Reach =
    next (next (next here (call_ready (65 ∷ []) refl refl (omega arith))) (write refl))
      (post refl refl)

posted-AllTidy : AllTidy posted-Reach
unfolding posted-Reach
posted-AllTidy = (((tt, (((λ e. absurd (omega arith)), tt), omega arith)), tt), tt)

abbrev printed_system : System
printed_system = record (initial 4096) {
  ring = advance_read written 1;
  output = 65 ∷ [];
  sent = 65 ∷ [];
}

first_round : print_round false written ≡ some (65 ∷ [], false, advance_read written 1)
unfolding get_used_space ring_read advance_read ring_write advance_write print_round
first_round = refl

printed-Reach : Reach 4096 printed_system
printed-Reach =
    next (next (next posted-Reach (wake false refl (omega arith))) (print refl first_round))
      (go_on refl refl)

printed-AllTidy : AllTidy printed-Reach
unfolding printed-Reach
printed-AllTidy = (((posted-AllTidy, tt), tt), tt)

in_order_lem_example : IsValid posted.ring × (contents posted.ring ≡ 65 ∷ [])
in_order_lem_example = in_order_lem (omega arith) (omega arith) posted-Reach posted-AllTidy

delivered_lem_example : printed_system.output ≡ printed_system.sent
delivered_lem_example =
    delivered_lem (omega arith) (omega arith) printed-Reach printed-AllTidy (inl refl)
