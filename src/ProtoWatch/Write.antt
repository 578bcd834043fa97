-- ===== src/ProtoWatch/Write.antt =====
-- `proto_watch_write_mb`: what becomes of a block and of the queue.
use h.Base.{ℕ, ◌+◌, ◌<◌, ◌≡◌, true, not, ◌&&◌, none, List, [], arith}
use h.Base.Words.{u32_mod}
use h.Base.Yields.{Yields, yields, Yields-bind, Yields-if}
use h.MemBlock.{MemBlock}
use h.ProtoWatch.{Watch, SendResult, max_backlog_size, is_none, is_empty, write_mb}
use h.ProtoWatch.Send.{Fits, TakesAtMost, write_directly_lem}
use h.ProtoWatch.Valid.{IsValid}
use h.ProtoWatch.Wrote.{Wrote, killed-Wrote, after_direct-Wrote, enqueue-Wrote}

nothing_queued :
    {Net : Type 0} (w : Watch Net)
    → (not w.connecting && (is_none w.write_buffer && is_empty w.backlog)) ≡ true
    → (w.write_buffer ≡ none) × (w.backlog ≡ [])
nothing_queued w h = ground arith

-- On a valid watch, for a block that fits and is not enormous, `proto_watch_write_mb` ends with a
-- valid watch and accounts for the block: it is owned or freed, once. When it returns 0, the bytes
-- sent and to be sent are those of before, less the blocks that the window takes out, and the
-- block's bytes behind them; when it returns -EAGAIN they are those of before, less those blocks,
-- alone; after any error they begin as those of before, less those blocks, with the block's bytes
-- behind would. The blocks taken out are dropable and lie behind the window, those kept are in
-- their order; none is taken out where no window is set, and with a window set, on a watch that is
-- not killed, the first dropable block kept lies within the window.
pub write_mb_lem :
    {Net : Type 0} (send : Net → List ℕ → SendResult × Net) (law : TakesAtMost send) (w : Watch Net)
    (mb : MemBlock)
    → IsValid w
    → Fits mb
    → mb.size + max_backlog_size < u32_mod
    → Yields (Wrote w mb) (write_mb send w mb)
unfolding write_mb
write_mb_lem send law w mb v fits small =
    Yields-if w.killed (λ dead. yields (killed-Wrote v dead))
      λ alive.
        Yields-if (not w.connecting && (is_none w.write_buffer && is_empty w.backlog))
          (λ direct.
            let (no_buffer, no_backlog) = nothing_queued w direct in
            Yields-bind (write_directly_lem send law w.socket mb fits)
              λ r wr. yields (after_direct-Wrote v no_buffer no_backlog wr))
          (λ queue. yields (enqueue-Wrote fits small v))
