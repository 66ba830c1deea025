-- ===== src/Queue/Invariant/Defs.antt =====
-- The invariant of a queue, the order of its histories, and runs that keep a predicate.
use go_ublksrv.Base.{
  ℕ, suc, ◌+◌, ◌*◌, ◌^◌, ◌≤◌, ◌<◌, ◌≡◌, ◌||◌, not, true, none, some, List, [], ◌∷◌, length, ltb,
  ◌==◌, if◌then◌else◌,
}
use go_ublksrv.Dev.Buffers.{sizeof_io_desc}
use go_ublksrv.Bits.{has}
use go_ublksrv.Word.{u32}
use go_ublksrv.Queue.Flags.{ublksrv_io_free, ublksrv_queue_stopping}
use go_ublksrv.Queue.Types.{Io, Queue, Run, ok, blocked, fault, abort}

-- The slot at `i`: its tag is its index, the first `depth` slots have the driver's descriptor of
-- that tag, and a slot with a command out has no flag set.
pub record SlotOk (depth i : ℕ) (io : Io) : Type 0 where
  pub tag : io.io_data.tag ≡ i
  pub iod : io.io_data.iod ≡ (if ltb i depth then some (i * sizeof_io_desc) else none)
  pub flags : (io.flags == 0 || has io.flags ublksrv_io_free) ≡ true

abbrev pub Slots : (depth i : ℕ) → List Io → Type 0
Slots depth i [] = Unit {0}
Slots depth i (io ∷ ios) = SlotOk depth i io × Slots depth (suc i) ios

pub record IsQueue {R : Type 0} (q : Queue R) : Type 0 where
  pub depth_fits : q.q_depth ≤ length q.ios
  pub tags_fit : length q.ios ≤ 2 ^ 16
  pub count_fits : q.tgt_io_inflight < 2 ^ 32
  pub slots : Slots q.q_depth 0 q.ios

-- What an operation leaves as it is, that a queue which is stopping stays so, and the account of
-- the io in flight: each call of `onRequestAsync` adds one, each submission takes one away.
pub record Evolves {R : Type 0} (q q' : Queue R) : Type 0 where
  pub same_depth : q'.q_depth ≡ q.q_depth
  pub same_id : q'.q_id ≡ q.q_id
  pub same_slots : length q'.ios ≡ length q.ios
  pub stopping :
      (not (has q.state ublksrv_queue_stopping) || has q'.state ublksrv_queue_stopping) ≡ true
  pub account :
      u32 (q'.tgt_io_inflight + length q'.sqes + length q.calls)
      ≡ u32 (q.tgt_io_inflight + length q.sqes + length q'.calls)

-- A run that ends in a queue with `P`, or waits for ever, but neither reads outside the slots nor
-- fails an assertion.
abbrev pub Keeps : {R A : Type 0} → (Queue R → Type 0) → Run R A → Type 0
Keeps P (ok a q) = P q
Keeps P blocked = Unit {0}
Keeps P fault = ⊥
Keeps P abort = ⊥

abbrev pub After : {R : Type 0} → Queue R → Queue R → Type 0
After q q' = IsQueue q' × Evolves q q'
