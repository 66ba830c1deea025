-- ===== src/Queue/Thread.antt =====
-- The thread of a queue: initialisation, and rounds until one returns an error.
pub mod Runs
pub mod Stops
use go_ublksrv.Base.{ℕ, Bool, true, false, Option, none, some, List, [], ◌∷◌, if◌then◌else◌}
use go_ublksrv.Word.{is_neg}
use go_ublksrv.Ioctl.{Ioctl}
use go_ublksrv.Uring.{Uring}
use go_ublksrv.Host.{Host}
use go_ublksrv.Dev.{Dev}
use go_ublksrv.Queue.Types.{Queue, Run, ok, blocked, fault, abort, and_then}
use go_ublksrv.Queue.Process.{Completion, ublksrv_process_io}
use go_ublksrv.Queue.Init.{Answers, ublksrv_queue_init}

module _ {R : Type 0} ⦃m : Ioctl⦄ ⦃u : Uring R⦄ ⦃h : Host⦄ where
  -- `do { if (ublksrv_process_io(q) < 0) break; } while (1)`, for as many rounds as the target's
  -- completions are given for: `true` is the end of the loop, `false` a thread that goes on.
  unfoldable pub serve : (rounds : List (List Completion)) → Queue R → Run R Bool
  unfolding ublksrv_process_io
  serve [] q = ok false q
  serve (during ∷ rounds) q =
      and_then (ublksrv_process_io during q)
        (λ r q'. if is_neg r then ok true q' else serve rounds q')

  -- `none` is the early return for a queue that is not initialised. `notifyShutdown` is called, once,
  -- exactly where the loop has ended, so the value says whether it was.
  unfoldable pub demo_null_io_handler_fn :
      Answers R
      → Dev
      → (q_id : ℕ) → (raw : Queue R) → (rounds : List (List Completion)) → Option (Run R Bool)
  unfolding ublksrv_queue_init serve
  demo_null_io_handler_fn answers dev q_id raw rounds =
      elim (ublksrv_queue_init answers dev q_id raw) [
        | none ↦ none
        | some run ↦ some (and_then run (λ _. serve rounds))
      ]
