-- ===== src/Msg/Parser.antt =====
-- Making and freeing a parser.
use h.Base.{◌≡◌, refl, Bool, true, false, Option, none, some, if◌then◌else◌, arith}
use h.Errno.{Code, ok, minus, is_ok}
use h.Client.{done}
use h.Client.Ends.{Ends, ends, Ends-weaken}
use h.Msg.{ParserOps, ProtoParser, parser_init, alloc_proto_parser, free_proto_parser}

abbrev pub init_succeeds : Option Code → Bool
init_succeeds none = true
init_succeeds (some result) = is_ok result

module _ {Msg : Type 0} where
  init_lem :
      (ops : ParserOps Msg) (result : Option Code)
      → Ends
          (λ r.
            (r.0 ≡ init_succeeds result)
            × (r.1.refs ≡ (if init_succeeds result then 1 else 0))
            × (r.1.fins ≡ 0)
            × (r.1.ops ≡ (if init_succeeds result then some ops else none)))
          (parser_init ops result)
  unfolding free_proto_parser
  init_lem ops none = ends (refl, refl, refl, refl)
  init_lem ops (some ok) = ends (refl, refl, refl, refl)
  init_lem ops (some (minus e)) = ends (refl, refl, refl, refl)

  freed_lem :
      (ops : ParserOps Msg) (p : ProtoParser Msg)
      → p.refs ≡ 1
      → p.ops ≡ some ops
      → p.fins ≡ 0
      → free_proto_parser p
        ≡ done (record { ops = some ops; refs = 0; fins = if ops.fin then 1 else 0 })
  unfolding free_proto_parser
  freed_lem ops p one has none_called = rw one (rw (has, none_called) refl)

  abbrev pub AfterFree : ParserOps Msg → Bool × ProtoParser Msg → Type 0
  AfterFree ops (false, p) = (p.refs ≡ 0) × (p.fins ≡ 0)
  AfterFree ops (true, p) =
      free_proto_parser p
      ≡ done (record { ops = some ops; refs = 0; fins = if ops.fin then 1 else 0 })

  after :
      (ops : ParserOps Msg) (b : Bool) (r : Bool × ProtoParser Msg)
      → r.0 ≡ b
      → r.1.refs ≡ (if b then 1 else 0)
      → r.1.fins ≡ 0
      → r.1.ops ≡ (if b then some ops else none)
      → AfterFree ops r
  after ops true (true, p) there refs no_fin functions = freed_lem ops p refs functions no_fin
  after ops false (false, p) there refs no_fin functions = (refs, no_fin)
  after ops false (true, p) there refs no_fin functions = absurd (ground arith)
  after ops true (false, p) there refs no_fin functions = absurd (ground arith)

  -- With memory, `alloc_proto_parser` ends: where the parser's `init` fails, with no parser, which is
  -- freed without a call of `fin`; otherwise with a parser with one reference, and
  -- `free_proto_parser` frees it, with one call of `fin`, if there is one.
  pub alloc_proto_parser_lem :
      (ops : ParserOps Msg)
      → Ends
          (λ r. (r.0 ≡ init_succeeds ops.init) × AfterFree ops r)
          (alloc_proto_parser true (some ops))
  unfolding alloc_proto_parser
  alloc_proto_parser_lem ops =
      Ends-weaken (init_lem ops ops.init) (λ r (there, refs, no_fin, functions).
        (there, after ops (init_succeeds ops.init) r there refs no_fin functions))
