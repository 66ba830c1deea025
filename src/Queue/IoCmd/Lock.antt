-- ===== src/Queue/IoCmd/Lock.antt =====
-- The mutex of a queue across `ublksrv_queue_io_cmd`.
use go_ublksrv.Base.{ℕ, ◌≡◌, ◌≢◌, ◌↔◌, true, false, some, get_elem?, arith}
use go_ublksrv.Ioctl.{Ioctl}
use go_ublksrv.Uring.{Uring}
use go_ublksrv.Queue.Types.{Io, Queue, ok, blocked}
use go_ublksrv.Queue.IoCmd.{ublksrv_queue_io_cmd, ublksrv_complete_io}
use go_ublksrv.Queue.IoCmd.Cases.{Sending, idle, full, sent, queue_io_cmd-Returned}

module _ {R : Type 0} ⦃m : Ioctl⦄ ⦃u : Uring R⦄ where
  Sending-lock :
      {tag r : ℕ} {q q' : Queue R} {io : Io} → Sending tag q io r q' → (r ≡ 1) ↔ (q'.lock ≡ false)
  Sending-lock (idle c e p) = ground arith
  Sending-lock (full c g e p) = ground arith
  Sending-lock (sent ring user_data c g b e p) = ground arith

  -- A call that returns has released the mutex exactly when it returns 1: where it returns 0, for a
  -- slot that needs no command, or -1, for a full submission queue, it returns with the mutex held.
  pub lock-queue_io_cmd :
      (tag : ℕ) (q : Queue R) {r : ℕ} {q' : Queue R}
      → ublksrv_queue_io_cmd tag q ≡ ok r q'
      → (r ≡ 1) ↔ (q'.lock ≡ false)
  lock-queue_io_cmd tag q e = Sending-lock (queue_io_cmd-Returned tag q e).way

  blocked_of_lock : (tag : ℕ) (q : Queue R) → q.lock ≡ true → ublksrv_queue_io_cmd tag q ≡ blocked
  unfolding ublksrv_queue_io_cmd
  blocked_of_lock tag q h = ground arith

  -- After a call that returned anything but 1 the queue is dead: any later submission blocks for
  -- ever, and so does the completion of any slot that exists.
  pub queue_io_cmd_leaks :
      (tag : ℕ) (q : Queue R) {r : ℕ} {q' : Queue R}
      → ublksrv_queue_io_cmd tag q ≡ ok r q'
      → r ≢ 1
      → (other res : ℕ) {io : Io} → get_elem? q'.ios other ≡ some io
      → (ublksrv_queue_io_cmd other q' ≡ blocked) × (ublksrv_complete_io other res q' ≡ blocked)
  unfolding ublksrv_complete_io
  queue_io_cmd_leaks tag q {r} {q'} e n other res p =
      (blocked_of_lock other q' held, ground (arith, held))
    where
      held : q'.lock ≡ true
      held = ground (arith, lock-queue_io_cmd tag q e)
