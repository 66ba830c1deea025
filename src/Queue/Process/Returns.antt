-- ===== src/Queue/Process/Returns.antt =====
-- A round of a queue's thread returns.
use mathlib.Core.Path.{subst, sym}
use go_ublksrv.Base.{
  ℕ, ◌≤◌, ◌≡◌, ◌∙◌, Bool, not, false, refl, inl, inr, List, length, arith, Bool-cases,
}
use go_ublksrv.Bits.{has}
use go_ublksrv.Word.{minus, enodev}
use go_ublksrv.Ioctl.{Ioctl, IsIoctl}
use go_ublksrv.Uring.{Uring, HasRoom}
use go_ublksrv.Host.{Host}
use go_ublksrv.Queue.Flags.{ublksrv_queue_idle}
use go_ublksrv.Queue.Types.{Queue, ok}
use go_ublksrv.Queue.Cqe.{ublksrv_reap_events_uring}
use go_ublksrv.Queue.Cqe.Returns.{reap-Ends}
use go_ublksrv.Queue.Ends.{Ends, Ends-bind, Ends-ok}
use go_ublksrv.Queue.Process.{
  Completion, ublksrv_queue_is_done, settle, submit_and_wait, process_tail, ublksrv_process_io,
}
use go_ublksrv.Queue.Process.Wait.{CanFinish, wait_inflight-Finished}
use go_ublksrv.Queue.Invariant.Defs.{IsQueue, Evolves, Keeps, After}
use go_ublksrv.Queue.Invariant.Slots.{Evolves-refl, Evolves-trans}
use go_ublksrv.Queue.Invariant.Rounds.{AllTags, ShowsOwn, wait_inflight-Keeps, settle-After}

-- After a submission there is room for a command for each completion that the ring shows.
abbrev pub RoomForShown : {R : Type 0} (u : Uring R) → HasRoom u → Type 0
RoomForShown {R} u full =
    (timeout : Bool) (r : R)
    → length (u.cqes (u.submit_and_wait timeout r).1) ≤ full.room (u.submit_and_wait timeout r).1

-- What a round leaves: a well-formed queue with its mutex free.
abbrev Settled : {R : Type 0} → Queue R → Queue R → Type 0
Settled q q' = (q'.lock ≡ false) × After q q'

module _ {R : Type 0} ⦃u : Uring R⦄ where
  settle-lock : (ret n : ℕ) (q : Queue R) → (settle ret n q).lock ≡ q.lock
  unfolding settle
  settle-lock ret n q = ground arith

module _ {R : Type 0} ⦃m : Ioctl⦄ ⦃u : Uring R⦄ ⦃h : Host⦄ (laws : IsIoctl m) (full : HasRoom u)
    (shown : RoomForShown u full) where
  tail-Ends :
      (timeout : Bool) (q : Queue R)
      → IsQueue q
      → ShowsOwn u q.q_depth
      → q.lock ≡ false
      → Ends (Settled q) (process_tail timeout q)
  unfolding submit_and_wait
  tail-Ends timeout q v own unlocked =
      let ret = (u.submit_and_wait timeout q.ring).0 in
      let q1 = record q { ring = (u.submit_and_wait timeout q.ring).1 } in
      let v1 : IsQueue q1 = record {
        depth_fits = v.depth_fits;
        tags_fit = v.tags_fit;
        count_fits = v.count_fits;
        slots = v.slots;
      } in
      let e1 : Evolves q q1 = ground arith in
      Ends-bind (Settled q1) (Settled q) (ublksrv_reap_events_uring q1)
        (λ n q'. ok n (settle ret n q'))
        (reap-Ends laws full q1 v1 (own q1.ring)
          (record { unlocked = unlocked; room = shown timeout q.ring }))
        (λ n q' a.
          let b = settle-After ret n q' a.1.0 in
          (settle-lock ret n q' ∙ a.0, (b.0, Evolves-trans e1 (Evolves-trans a.1.1 b.1))))

  -- A round returns. From a well-formed queue with its mutex free, no slot waiting for data and room
  -- for a commit for each io in flight, while the target completes slots that exist at least as many
  -- times as io are in flight, and the driver shows completions of the queue's own commands only, for
  -- which there is room after a submission: the round ends in a well-formed queue with the mutex free
  -- again, and what `Evolves` says of the two queues holds.
  pub process_io-returns :
      (during : List Completion) (q : Queue R)
      → IsQueue q
      → CanFinish full q
      → ShowsOwn u q.q_depth
      → AllTags (length q.ios) during
      → q.tgt_io_inflight ≤ length during
      → (r : ℕ) × (q' : Queue R) × (ublksrv_process_io during q ≡ ok r q')
        × (q'.lock ≡ false)
        × After q q'
  unfolding ublksrv_process_io
  process_io-returns during q v can own tags enough = elim (Bool-cases (ublksrv_queue_is_done q)) [
    | inl done_ ↦ (minus enodev, q, ground arith, can.unlocked, (v, Evolves-refl q))
    | inr more ↦
        let timeout = not (has q.state ublksrv_queue_idle) in
        let (rest, q1, run, used, f, _, _, _) =
          wait_inflight-Finished laws full during q can tags enough in
        let a : After q q1 =
          subst (Keeps (After q)) run (wait_inflight-Keeps laws during q v tags) in
        let (r, q', run', (l, b)) =
          Ends-ok (Settled q1) (process_tail timeout q1)
            (tail-Ends timeout q1 a.0 (subst (ShowsOwn u) (sym a.1.same_depth) own) f.unlocked) in
        let whole : ublksrv_process_io during q ≡ process_tail timeout q1 =
          unfold ublksrv_process_io in rw more (rw run refl) in
        (r, q', whole ∙ run', l, (b.0, Evolves-trans a.1 b.1))
  ]
