-- ===== src/Queue/Process/Idle.antt =====
-- The idle state, round by round.
use go_ublksrv.Base.{
  ℕ, ◌≡◌, ◌&&◌, ◌++◌, Bool, not, true, false, refl, [], ◌∷◌, bit_and, arith, ◌==◌, if◌then◌else◌,
  map, take,
}
use go_ublksrv.Bits.{has, has-or, has-clear, has-zero}
use go_ublksrv.Word.{minus, etime, is_neg}
use go_ublksrv.Uring.{Uring}
use go_ublksrv.Queue.Flags.{ublksrv_queue_stopping, ublksrv_queue_idle}
use go_ublksrv.Queue.Types.{Io, Queue}
use go_ublksrv.Queue.Process.{settle}

idle_is_idle : has ublksrv_queue_idle ublksrv_queue_idle ≡ true
unfolding has
idle_is_idle = refl

module _ {R : Type 0} ⦃u : Uring R⦄ where
  -- The timeout ran out with nothing reaped and nothing to submit.
  abbrev pub quiet : (ret reapped : ℕ) → Queue R → Bool
  quiet ret reapped q = (ret == minus etime) && (reapped == 0) && (u.sq_ready q.ring == 0)

  -- After a round a queue that is not stopping is idle exactly when the round was quiet; a stopping
  -- queue keeps its idle bit.
  settle-idle :
      (ret reapped : ℕ) (q : Queue R)
      → has (settle ret reapped q).state ublksrv_queue_idle ≡ (
          if has q.state ublksrv_queue_stopping
          then has q.state ublksrv_queue_idle
          else quiet ret reapped q)
  unfolding settle
  settle-idle ret reapped q =
      ground (arith, has-or q.state 2 2, has-clear q.state 2 2, has-zero q.state, idle_is_idle)

  -- A round that ends changes no other bit of the state.
  pub settle-state :
      (ret reapped : ℕ) (q : Queue R) {mask : ℕ}
      → bit_and 0xffff_fffd mask ≡ mask
      → has 2 mask ≡ false
      → has (settle ret reapped q).state mask ≡ has q.state mask
  unfolding settle
  settle-state ret reapped q {mask} keeps apart =
      ground (arith, has-or q.state 2 mask, has-clear q.state 2 mask)

  -- A round ends. The state is idle then exactly where the queue is stopping and was idle, or is not
  -- stopping and the round was quiet; it is stopping exactly where it was. The buffers of the driver's
  -- slots are given back exactly where the idle bit turns from clear to set, and nothing else is; and
  -- an event is written exactly where the state after the round is stopping and the descriptor is not
  -- negative.
  pub settle-effects :
      (ret reapped : ℕ) (q : Queue R)
      → (has (settle ret reapped q).state ublksrv_queue_idle ≡ (
          if has q.state ublksrv_queue_stopping
          then has q.state ublksrv_queue_idle
          else quiet ret reapped q))
        × (has (settle ret reapped q).state ublksrv_queue_stopping
            ≡ has q.state ublksrv_queue_stopping)
        × ((settle ret reapped q).advised ≡ (
            if not (has q.state ublksrv_queue_idle)
              && has (settle ret reapped q).state ublksrv_queue_idle
            then q.advised
              ++ map (λ io. (Io.buf_addr io, q.max_io_buf_bytes)) (take q.q_depth q.ios)
            else q.advised))
        × ((settle ret reapped q).efd_writes ≡ (
            if has (settle ret reapped q).state ublksrv_queue_stopping && not (is_neg q.efd)
            then q.efd_writes ++ (q.efd ∷ [])
            else q.efd_writes))
  unfolding settle
  settle-effects ret reapped q =
      let apart : has 2 ublksrv_queue_stopping ≡ false = unfold has in refl in
      let idle = settle-idle ret reapped q in
      let stop = settle-state ret reapped q {mask = ublksrv_queue_stopping} refl apart in
      (idle, stop, ground (arith, idle, stop), ground (arith, stop))
