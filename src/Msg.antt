-- ===== src/Msg.antt =====
-- src/msg.c and src/proto_parser.c: the functions of each type of message, and parsers.
pub mod Registry
pub mod Parser
mod Tests
use h.Base.{
  ℕ, zero, suc, ◌-◌, ◌%◌, Bool, true, false, Option, none, some, List, [], ◌∷◌, ltb, ◌==◌,
  if◌then◌else◌,
}
use h.Errno.{Code, ok, minus, eexist}
use h.Client.{Outcome, done, fault, ◌>>=◌}

-- `msg_ops` with the message, its copies and its blocks as they are elsewhere.
pub record MsgOps (Msg Mb : Type 0) : Type 0 where
  pub dup : Msg → Msg
  pub msg_size : Msg → ℕ
  pub msg_to_mb : Msg → Mb

-- `ops_array`, whose four entries are NULL at first.
abbrev pub OpsArray : Type 0 → Type 0
OpsArray Ops = List (Option Ops)

abbrev pub no_types : {Ops : Type 0} → OpsArray Ops
no_types = none ∷ none ∷ none ∷ none ∷ []

module _ {Ops : Type 0} where
  -- `ops_array[mt]`; behind the array nothing can be read.
  abbrev pub entry : ℕ → OpsArray Ops → Outcome (Option Ops)
  entry mt [] = fault
  entry zero (o ∷ l) = done o
  entry (suc mt) (o ∷ l) = entry mt l

  abbrev pub set_entry : ℕ → Ops → OpsArray Ops → OpsArray Ops
  set_entry mt ops [] = []
  set_entry zero ops (o ∷ l) = some ops ∷ l
  set_entry (suc mt) ops (o ∷ l) = o ∷ set_entry mt ops l

  abbrev pub register_free : ℕ → Ops → OpsArray Ops → Option Ops → Code × OpsArray Ops
  register_free mt ops l none = (ok, set_entry mt ops l)
  register_free mt ops l (some there) = (minus eexist, l)

  pub register_msg_type : ℕ → Ops → OpsArray Ops → Outcome (Code × OpsArray Ops)
  register_msg_type mt ops l = entry mt l >>= (λ o. done (register_free mt ops l o))

  -- GET_MSG_OPS and the assertion that follows it; a message's type is a number.
  abbrev pub asserted : Option Ops → Outcome Ops
  asserted none = fault
  asserted (some ops) = done ops

  pub get_msg_ops : (type : ℕ) → OpsArray Ops → Outcome Ops
  get_msg_ops type l = entry (type % 4) l >>= asserted

  -- A sequence of registrations, with what each returns.
  pub register_all : List (ℕ × Ops) → OpsArray Ops → Outcome (List Code × OpsArray Ops)
  register_all [] l = done ([], l)
  register_all ((mt, ops) ∷ rest) l =
      register_msg_type mt ops l
      >>= (λ (err, l). register_all rest l >>= (λ (errs, l). done (err ∷ errs, l)))

module _ {Msg Mb : Type 0} where
  pub msg_dup : OpsArray (MsgOps Msg Mb) → ℕ → Msg → Outcome Msg
  msg_dup l type m = get_msg_ops type l >>= (λ ops. done (ops.dup m))

  pub msg_size : OpsArray (MsgOps Msg Mb) → ℕ → Msg → Outcome ℕ
  msg_size l type m = get_msg_ops type l >>= (λ ops. done (ops.msg_size m))

  pub msg_to_mb : OpsArray (MsgOps Msg Mb) → ℕ → Msg → Outcome Mb
  msg_to_mb l type m = get_msg_ops type l >>= (λ ops. done (ops.msg_to_mb m))

-- `proto_parser`: its references, and whether it is allocated; of its functions which there are.
pub record ParserOps (Msg : Type 0) : Type 0 where
  pub init : Option Code
  pub fin : Bool
  pub parse : Option (List ℕ → Option Msg × Code)
  pub parse_io : Option (ℕ → Option Msg × Code)

pub record ProtoParser (Msg : Type 0) : Type 0 where
  pub ops : Option (ParserOps Msg)
  pub refs : ℕ
  pub fins : ℕ

module _ {Msg : Type 0} where
  -- `obj_unref` with `on_obj_fin`; `fins` counts the calls of `fin`.
  abbrev has_fin : Option (ParserOps Msg) → Bool
  has_fin none = false
  has_fin (some ops) = ops.fin

  pub free_proto_parser : ProtoParser Msg → Outcome (ProtoParser Msg)
  free_proto_parser p =
      if p.refs == 0
      then fault
      else if p.refs == 1
      then done (record p { refs = 0; fins = if has_fin p.ops then suc p.fins else p.fins })
      else done (record p { refs = p.refs - 1 })

  -- `alloc_proto_parser` of a size that is that of a parser at least, or not, with whether `malloc`
  -- returns memory. The result is whether there is a parser.
  abbrev pub made : ProtoParser Msg
  made = record { ops = none; refs = 1; fins = 0 }

  abbrev pub parser_init : ParserOps Msg → Option Code → Outcome (Bool × ProtoParser Msg)
  parser_init ops none = done (true, record made { ops = some ops })
  parser_init ops (some ok) = done (true, record made { ops = some ops })
  parser_init ops (some (minus e)) = free_proto_parser made >>= (λ p. done (false, p))

  pub alloc_proto_parser :
      (memory : Bool) → Option (ParserOps Msg) → Outcome (Bool × ProtoParser Msg)
  alloc_proto_parser false ops = fault
  alloc_proto_parser true none = done (true, made)
  alloc_proto_parser true (some ops) = parser_init ops ops.init

  -- `parse_proto` and `parse_proto_io`, with what stood in `*err` before.
  abbrev pub parse_with :
      {In : Type 0} → Option (In → Option Msg × Code) → In → Code → Option Msg × Code
  parse_with none input err = (none, err)
  parse_with (some parse) input err = parse input

  pub parse_proto : ProtoParser Msg → List ℕ → Code → Option Msg × Code
  parse_proto p bytes err = elim p.ops [
    | none ↦ (none, err)
    | some ops ↦ parse_with ops.parse bytes err
  ]

  pub parse_proto_io : ProtoParser Msg → ℕ → Code → Option Msg × Code
  parse_proto_io p io err = elim p.ops [
    | none ↦ (none, err)
    | some ops ↦ parse_with ops.parse_io io err
  ]
