-- ===== src/ProtoWatch/Valid.antt =====
-- What a watch promises between two calls, and the bytes that it stands for.
use h.Base.{
  ℕ, ◌+◌, ◌≤◌, ◌≡◌, refl, true, false, ◌&&◌, Option, none, some, List, [], ◌∷◌, ◌++◌, append_assoc,
  sym, length, arith,
}
use h.MemBlock.{MemBlock, rest}
use h.ProtoWatch.{Watch, max_backlog_size, is_none, is_empty}
use h.ProtoWatch.Send.{Fits}

-- The bytes still to be sent: of a backlog, of the block being written.
abbrev pub queued : List MemBlock → List ℕ
queued [] = []
queued (mb ∷ r) = rest mb ++ queued r

abbrev pub buffered : Option MemBlock → List ℕ
buffered none = []
buffered (some mb) = rest mb

-- All bytes, sent or to be sent, in their order.
abbrev pub stream : {Net : Type 0} → Watch Net → List ℕ
stream w = w.socket.wire ++ (buffered w.write_buffer ++ queued w.backlog)

abbrev pub total_size : List MemBlock → ℕ
total_size [] = 0
total_size (mb ∷ r) = mb.size + total_size r

abbrev pub AllFit : List MemBlock → Type 0
AllFit [] = Unit
AllFit (mb ∷ r) = Fits mb × AllFit r

abbrev pub BufferFits : Option MemBlock → Type 0
BufferFits none = Unit
BufferFits (some mb) = Fits mb

-- The blocks that the watch owns, and with those that it has freed.
abbrev pub holding : Option MemBlock → ℕ
holding none = 0
holding (some _) = 1

abbrev pub held : {Net : Type 0} → Watch Net → ℕ
held w = holding w.write_buffer + length w.backlog

abbrev pub accounted : {Net : Type 0} → Watch Net → ℕ
accounted w = held w + length w.freed

pub record IsValid {Net : Type 0} (w : Watch Net) : Type 0 where
  pub sized : w.backlog_size ≡ total_size w.backlog
  pub bounded : w.backlog_size ≤ max_backlog_size
  pub buffer_fits : BufferFits w.write_buffer
  pub backlog_fits : AllFit w.backlog
  -- While something is to be sent, the event asks for EV_WRITE.
  pub wakes : (is_none w.write_buffer && is_empty w.backlog) ≡ false → w.ev_write ≡ true
  pub connects : w.connecting ≡ true → w.ev_write ≡ true

pub queued-append : (xs ys : List MemBlock) → queued (xs ++ ys) ≡ queued xs ++ queued ys
queued-append [] ys = refl
queued-append (x ∷ xs) ys =
    rw (queued-append xs ys) (sym (append_assoc (rest x) (queued xs) (queued ys)))

pub total_size-append :
    (xs ys : List MemBlock) → total_size (xs ++ ys) ≡ total_size xs + total_size ys
total_size-append [] ys = omega arith
total_size-append (x ∷ xs) ys = omega (arith, total_size-append xs ys)

pub AllFit-append : (xs ys : List MemBlock) → AllFit xs → AllFit ys → AllFit (xs ++ ys)
AllFit-append [] ys f g = g
AllFit-append (x ∷ xs) ys f g = (f.0, AllFit-append xs ys f.1 g)
