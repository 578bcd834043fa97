-- ===== src/Msg/Tests.antt =====
-- Three registrations, two of the same type, and a parser whose `init` fails.
use h.Base.{ℕ, ◌%◌, ◌≡◌, true, false, none, some, List, [], ◌∷◌, arith}
use h.Errno.{minus, einval}
use h.Client.Ends.{Ends}
use h.Msg.{ParserOps, no_types, get_msg_ops, register_all, asserted}
use h.Msg.Registry.{AllTypes, codes, first_of, register_all_lem}

abbrev regs : List (ℕ × ℕ)
regs = (1, 10) ∷ (2, 20) ∷ (1, 30) ∷ []

regs-AllTypes : AllTypes regs
regs-AllTypes = (omega arith, (omega arith, (omega arith, tt)))

register_all_lem_example :
    Ends
      (λ (errs, l).
        (errs ≡ codes (λ k. false) regs)
        × ((type : ℕ) → get_msg_ops type l ≡ asserted (first_of (type % 4) regs)))
      (register_all regs no_types)
register_all_lem_example = register_all_lem regs regs-AllTypes

abbrev parser_ops : ParserOps ℕ
parser_ops = record { init = some (minus einval); fin = true; parse = none; parse_io = none }
