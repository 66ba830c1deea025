-- ===== src/Queue/Process.antt =====
-- One round of a queue's thread: wait for the target, submit, reap, and the idle state.
pub mod Wait
pub mod Idle
pub mod Ending
pub mod Returns
use go_ublksrv.Base.{
  ℕ, ◌+◌, ◌-◌, ◌*◌, ◌^◌, bit_or, Bool, true, false, not, ◌&&◌, Option, none, some, List, [], ◌∷◌,
  ◌++◌, map, ◌==◌, if◌then◌else◌, take,
}
use go_ublksrv.Bits.{has, clear}
use go_ublksrv.Word.{is_neg, is_pos, minus, enodev, etime}
use go_ublksrv.Ioctl.{Ioctl}
use go_ublksrv.Uring.{Uring, Cqe}
use go_ublksrv.Host.{Host}
use go_ublksrv.Queue.Flags.{ublksrv_queue_stopping, ublksrv_queue_idle}
use go_ublksrv.Queue.Types.{Io, Queue, Run, ok, blocked, fault, abort, ◌>>=◌, ◌>>◌}
use go_ublksrv.Queue.IoCmd.{ublksrv_complete_io}
use go_ublksrv.Queue.Cqe.{ublksrv_reap_events_uring}

-- A call `ublksrv_complete_io(q, tag, res)` of a thread of the target.
pub record Completion : Type 0 where
  pub tag : ℕ
  pub res : ℕ

module _ {R : Type 0} where
  unfoldable pub ublksrv_queue_is_done : ⦃u : Uring R⦄ → Queue R → Bool
  ublksrv_queue_is_done ⦃u⦄ q = has q.state ublksrv_queue_stopping && u.sq_ready q.ring == 0

  unfoldable pub ublksrv_kill_eventfd : Queue R → Queue R
  ublksrv_kill_eventfd q =
      if has q.state ublksrv_queue_stopping && not (is_neg q.efd)
      then record q { efd_writes = q.efd_writes ++ (q.efd ∷ []) }
      else q

  unfoldable pub ublksrv_queue_discard_io_pages : Queue R → Queue R
  ublksrv_queue_discard_io_pages q = record q {
    advised = q.advised ++ map (λ io. (Io.buf_addr io, q.max_io_buf_bytes)) (take q.q_depth q.ios);
  }

  unfoldable pub ublksrv_queue_idle_enter : Queue R → Queue R
  unfolding ublksrv_queue_discard_io_pages
  ublksrv_queue_idle_enter q =
      if has q.state ublksrv_queue_idle
      then q
      else let q' = ublksrv_queue_discard_io_pages q in
        record q' { state = bit_or q'.state ublksrv_queue_idle }

  unfoldable pub ublksrv_queue_idle_exit : Queue R → Queue R
  ublksrv_queue_idle_exit q =
      if has q.state ublksrv_queue_idle
      then record q { state = clear q.state ublksrv_queue_idle }
      else q

module _ {R : Type 0} ⦃u : Uring R⦄ where
  unfoldable pub submit_and_wait : (timeout : Bool) → Queue R → Run R ℕ
  submit_and_wait timeout q =
      let (ret, ring) = u.submit_and_wait timeout q.ring in ok ret (record q { ring = ring })

  -- What follows the reaping.
  unfoldable pub settle : (ret reapped : ℕ) → Queue R → Queue R
  unfolding ublksrv_kill_eventfd ublksrv_queue_idle_enter ublksrv_queue_idle_exit
  settle ret reapped q =
      if has q.state ublksrv_queue_stopping
      then ublksrv_kill_eventfd q
      else if (ret == minus etime) && (reapped == 0) && (u.sq_ready q.ring == 0)
      then ublksrv_queue_idle_enter q
      else ublksrv_queue_idle_exit q

module _ {R : Type 0} ⦃m : Ioctl⦄ ⦃u : Uring R⦄ where
  -- `while (inflight > 0) pthread_cond_wait(...)`, with the completions that the target's threads
  -- make meanwhile; with none left and io in flight nobody ends the wait.
  unfoldable pub wait_inflight : List Completion → Queue R → Run R (List Completion)
  unfolding ublksrv_complete_io
  wait_inflight [] q = if is_pos q.tgt_io_inflight then blocked else ok [] q
  wait_inflight (c ∷ cs) q =
      let woken = (ublksrv_complete_io c.tag c.res >> wait_inflight cs) q in
      if is_pos q.tgt_io_inflight then woken else ok (c ∷ cs) q

module _ {R : Type 0} ⦃m : Ioctl⦄ ⦃u : Uring R⦄ ⦃h : Host⦄ where
  abbrev pub process_tail : (timeout : Bool) → Queue R → Run R ℕ
  process_tail timeout = do
    ret ← submit_and_wait timeout
    reapped ← ublksrv_reap_events_uring
    (λ q. ok reapped (settle ret reapped q))

  -- The timeout of 20 seconds is left out while the queue is idle.
  unfoldable pub ublksrv_process_io : List Completion → Queue R → Run R ℕ
  unfolding ublksrv_queue_is_done wait_inflight submit_and_wait settle ublksrv_reap_events_uring
  ublksrv_process_io during q =
      if ublksrv_queue_is_done q
      then ok (minus enodev) q
      else (wait_inflight during >> process_tail (not (has q.state ublksrv_queue_idle))) q
