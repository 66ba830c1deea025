-- ===== src/Queue/Process/Wait.antt =====
-- The wait for the target's io ends, and its last completion wakes the waiter.
use mathlib.Core.List.{map-append, append_assoc, append-nil}
use go_ublksrv.Word.{u32}
use go_ublksrv.Queue.IoCmd.Twice.{committed}
use go_ublksrv.Base.{
  ℕ, Option, ◌∙◌, ◌++◌, map, sym, zero, suc, ◌+◌, ◌-◌, ◌^◌, ◌≤◌, ◌<◌, ◌≡◌, false, refl, some, List,
  [], ◌∷◌, length, ◌==◌, if◌then◌else◌, arith, ap, dec_lt, get_elem?, set, length-set,
  length-append, min,
}
use go_ublksrv.Bits.{has}
use go_ublksrv.Ioctl.{Ioctl, IsIoctl}
use go_ublksrv.Uring.{Uring, HasRoom}
use go_ublksrv.Queue.Flags.{ublksrv_need_get_data}
use go_ublksrv.Queue.Types.{Io, IoSqe, Queue, ok}
use go_ublksrv.Queue.IoCmd.{ublksrv_complete_io}
use go_ublksrv.Queue.IoCmd.Commit.{Commits, complete_io-Commits}
use go_ublksrv.Queue.Invariant.Slots.{get_elem?-some}
use go_ublksrv.Queue.Process.{Completion, wait_inflight}
use go_ublksrv.Queue.Invariant.Rounds.{AllTags}

-- No slot waits for data.
abbrev pub NoData : List Io → Type 0
NoData [] = Unit {0}
NoData (io ∷ ios) = (has io.flags ublksrv_need_get_data ≡ false) × NoData ios

pub no_flags : has 0 ublksrv_need_get_data ≡ false
unfolding has
no_flags = refl

pub NoData-get :
    (ios : List Io) (i : ℕ) {io : Io}
    → NoData ios
    → get_elem? ios i ≡ some io
    → has io.flags ublksrv_need_get_data ≡ false
NoData-get [] i n e = absurd (ground arith)
NoData-get (x ∷ ios) zero n e = ground arith
NoData-get (x ∷ ios) (suc i) n e = NoData-get ios i n.1 e

pub NoData-set :
    (ios : List Io) (i : ℕ) (io : Io)
    → NoData ios
    → has io.flags ublksrv_need_get_data ≡ false
    → NoData (set ios i io)
NoData-set [] i io n h = tt
NoData-set (x ∷ ios) zero io n h = (h, n.1)
NoData-set (x ∷ ios) (suc i) io n h = (n.0, NoData-set ios i io n.1 h)

-- A queue whose target can finish: no more than `n` io are in flight, and there is room for them.
pub record CanFinish {R : Type 0} ⦃u : Uring R⦄ (full : HasRoom u) (q : Queue R) : Type 0 where
  pub unlocked : q.lock ≡ false
  pub counted : q.tgt_io_inflight < 2 ^ 31
  pub room : q.tgt_io_inflight ≤ full.room q.ring
  pub tags_fit : length q.ios ≤ 2 ^ 16
  pub plain : NoData q.ios

-- What a completion commits: its tag, and its result as an `int`.
abbrev pub answer_of : Completion → ℕ × Option ℕ
answer_of c = (c.tag, some (u32 c.res))

-- What is true when the wait is over: nothing is in flight, there is a commit for each io that was,
-- and the waiter was signalled once if there was any.
pub record Finished {R : Type 0} (q q' : Queue R) : Type 0 where
  pub none_left : q'.tgt_io_inflight ≡ 0
  pub committed : length q'.sqes ≡ length q.sqes + q.tgt_io_inflight
  pub signalled : q'.signals ≡ q.signals + min 1 q.tgt_io_inflight
  pub unlocked : q'.lock ≡ false

record OneDone {R : Type 0} ⦃u : Uring R⦄ (full : HasRoom u) (tag res k : ℕ) (q q' : Queue R)
    : Type 0 where
  can : CanFinish full q'
  left : q'.tgt_io_inflight ≡ k
  same_slots : length q'.ios ≡ length q.ios
  one_more : length q'.sqes ≡ length q.sqes + 1
  sent : (sqe : IoSqe) × (q'.sqes ≡ q.sqes ++ (sqe ∷ [])) × (committed sqe ≡ (tag, some (u32 res)))
  woken : q'.signals ≡ (if k == 0 then q.signals + 1 else q.signals)

length-slots :
    {R : Type 0} ⦃m : Ioctl⦄ {tag res : ℕ} {q q' : Queue R} {io : Io} {ring : R}
    → Commits tag res q io ring q'
    → length q'.ios ≡ length q.ios
length-slots {res} {q} {io} d = rw d.slots (length-set q.ios _ _)

module _ {R : Type 0} ⦃m : Ioctl⦄ ⦃u : Uring R⦄ (full : HasRoom u) where
  Commits-OneDone :
      (tag res k : ℕ) {q q' : Queue R} {io : Io} {ring : R}
      → CanFinish full q
      → Commits tag res q io ring q'
      → full.room ring ≡ full.room q.ring - 1
      → q.tgt_io_inflight ≡ suc k
      → OneDone full tag res k q q'
  Commits-OneDone tag res k {q} {q'} {io} {ring} can d less e =
      let left : q'.tgt_io_inflight ≡ k = omega (arith, d.counted) in
      let room : full.room q'.ring ≡ full.room ring = ap full.room d.ring_taken in
      let slots : length q'.ios ≡ length q.ios = length-slots d in
      record {
        can = record {
          unlocked = d.unlocked;
          counted = omega arith;
          room = omega arith;
          tags_fit = omega arith;
          plain = rw d.slots (NoData-set q.ios tag _ can.plain (no_flags));
        };
        left = left;
        same_slots = slots;
        one_more = omega (arith, ap length d.sqes, length-append q.sqes (d.sqe ∷ []));
        sent = (d.sqe, d.sqes, λ i. (d.cmd_tag i, d.result i));
        woken = rw d.woken (ground arith);
      }

module _ {R : Type 0} ⦃m : Ioctl⦄ ⦃u : Uring R⦄ (laws : IsIoctl m) (full : HasRoom u) where
  one_done :
      (c : Completion) (q : Queue R) (k : ℕ)
      → CanFinish full q
      → c.tag < length q.ios
      → q.tgt_io_inflight ≡ suc k
      → (q' : Queue R) × (ublksrv_complete_io c.tag c.res q ≡ ok 1 q')
        × OneDone full c.tag c.res k q q'
  one_done c q k can lt e =
      let (io, slot) = get_elem?-some q.ios c.tag lt in
      let (ring, got, less) = full.take q.ring (full.room q.ring - 1) (omega arith) in
      let (q', run, d) =
        complete_io-Commits laws c.tag c.res q (omega arith) can.unlocked slot
          (NoData-get q.ios c.tag can.plain slot) got in
      (q', run, Commits-OneDone full c.tag c.res k can d less e)

  -- The wait ends. Where the mutex is free, no slot waits for data, the submission queue has room for
  -- each io in flight, the count is a positive `int` or 0 and the target completes slots that exist,
  -- at least as many times as io are in flight, the loop returns: nothing is in flight then, the
  -- waiter was signalled exactly when there was one, and the mutex is free. It has used as many
  -- completions as there were io in flight, from the first on, and what it has submitted is one commit
  -- for each of these, in order, with its tag and its result, and nothing else.
  pub wait_inflight-Finished :
      (cs : List Completion) (q : Queue R)
      → CanFinish full q
      → AllTags (length q.ios) cs
      → q.tgt_io_inflight ≤ length cs
      → (rest : List Completion) × (q' : Queue R) × (wait_inflight cs q ≡ ok rest q')
        × (length rest + q.tgt_io_inflight ≡ length cs)
        × Finished q q'
        × (used : List Completion) × (cs ≡ used ++ rest)
        × (map committed q'.sqes ≡ map committed q.sqes ++ map answer_of used)
  unfolding wait_inflight
  wait_inflight-Finished [] q can tags le = (
    [],
    q,
    ground arith,
    omega arith,
    ground arith,
    [],
    refl,
    sym (append-nil (map committed q.sqes)),
  )
  wait_inflight-Finished (c ∷ cs) q can tags le = elim (dec_lt 0 q.tgt_io_inflight) [
    | no idle ↦ (
      c ∷ cs,
      q,
      ground arith,
      omega arith,
      ground arith,
      [],
      refl,
      sym (append-nil (map committed q.sqes)),
    )
    | yes busy ↦
        let (q1, run, d) = one_done c q (q.tgt_io_inflight - 1) can tags.0 (omega arith) in
        let (rest, q2, run', n, f, used, split, log) =
          wait_inflight-Finished cs q1 d.can (rw d.same_slots tags.1) (omega (arith, d.left)) in
        let (sqe, sent, told) = d.sent in
        (
          rest,
          q2,
          ground (arith, d.left),
          omega (arith, d.left),
          ground (arith, d.left),
          c ∷ used,
          ap (◌∷◌ c) split,
          log ∙ rw sent (simp (map-append, append_assoc, told)),
        )
  ]
