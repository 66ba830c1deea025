-- ===== src/Daemon/Start.antt =====
-- The daemon of a device: a thread for each queue, the start, and the wait for the threads.
pub mod Order
pub mod Ends
use go_ublksrv.Base.{
  ℕ, zero, suc, ◌+◌, Bool, true, false, not, Option, none, some, List, [], ◌∷◌, ◌++◌, if◌then◌else◌,
}
use go_ublksrv.Word.{minus, is_neg, enomem}
use go_ublksrv.Ioctl.{Ioctl}
use go_ublksrv.Dev.{DevInfo, Dev}
use go_ublksrv.Ctrl.Send.{
  CtrlRing, CtrlDev, Answer, answered, asserted, still_waiting, ublksrv_ctrl_cmd,
}
use go_ublksrv.Ctrl.Delete.{ublksrv_ctrl_start_dev}
use go_ublksrv.Ctrl.Affinity.{Asked, asked, stuck, ublksrv_ctrl_get_affinity}
use go_ublksrv.Daemon.PidFile.{FileLog}
use go_ublksrv.Daemon.Setup.{SetupAnswers, ublksrv_dev_init}

-- The block of a thread; its `pthread_t` is named by the queue's number.
pub record QueueInfo : Type 0 where
  pub dev : Dev
  pub qid : ℕ

-- What the daemon does, in order. A thread reads its block of the array from when it is created.
pub data Step : Type 0 where
  created : QueueInfo → Step
  start_sent : Step
  joined : (qid : ℕ) → Step
  infos_freed : Step

-- The loop that creates the threads from queue `i` on, and the loop that waits for them.
unfoldable pub create_threads : Dev → (left i : ℕ) → List Step
create_threads dev zero i = []
create_threads dev (suc left) i =
    created (record { dev = dev; qid = i }) ∷ create_threads dev left (suc i)

unfoldable pub join_threads : (left i : ℕ) → List Step
join_threads zero i = []
join_threads (suc left) i = joined i ∷ join_threads left (suc i)

-- What the system answers the daemon: the two allocations, the calls of the device's setup, whether
-- there is a directory for pid files, and what the memory held that is not initialised.
pub record DaemonAnswers : Type 0 where
  pub allocates_sets : Bool
  pub allocates_infos : Bool
  pub setup : SetupAnswers
  pub run_dir : Bool
  pub left_over_cpus : ℕ
  pub left_over_fd : ℕ

-- A result, what was done, the log of the files, and the control device; or a command that does not
-- return.
pub data Handled (K : Type 0) : Type 0 where
  handled : (ret : ℕ) → List Step → FileLog → CtrlDev K → Handled K
  hangs : Handled K

module _ {K : Type 0} ⦃m : Ioctl⦄ ⦃c : CtrlRing K⦄ where
  -- The threads, the START_DEV, and the wait for as many threads as the device has queues then.
  unfoldable pub run_threads : (fuel pid : ℕ) → Dev → FileLog → CtrlDev K → Handled K
  unfolding create_threads join_threads
  run_threads fuel pid tdev log dev =
      let threads = create_threads tdev dev.dev_info.nr_hw_queues 0 in
      elim (ublksrv_ctrl_start_dev fuel pid dev) [
        | asserted ↦ hangs
        | still_waiting ↦ hangs
        | answered ret memory dev' ↦
            if is_neg ret
            then handled ret (threads ++ (start_sent ∷ infos_freed ∷ [])) log dev'
            else handled ret
                (threads
                  ++ (start_sent
                      ∷ (join_threads dev'.dev_info.nr_hw_queues 0 ++ (infos_freed ∷ []))))
                log dev'
      ]

  unfoldable pub demo_null_io_handler :
      (fuel pid : ℕ) → DaemonAnswers → FileLog → CtrlDev K → Handled K
  unfolding run_threads
  demo_null_io_handler fuel pid answers log dev =
      let (tdev, log') =
        ublksrv_dev_init dev.dev_info answers.setup answers.run_dir answers.left_over_fd log in
      if not answers.allocates_infos then handled (minus enomem) [] log dev else elim tdev [
        | none ↦ handled (minus enomem) (infos_freed ∷ []) log' dev
        | some d ↦ run_threads fuel pid d log' dev
      ]

  unfoldable pub ublksrv_start_daemon :
      (fuel pid : ℕ) → DaemonAnswers → FileLog → CtrlDev K → Handled K
  unfolding demo_null_io_handler
  ublksrv_start_daemon fuel pid answers log dev =
      elim (ublksrv_ctrl_get_affinity fuel answers.left_over_cpus answers.allocates_sets dev) [
        | stuck ↦ hangs
        | asked ret blocks dev' ↦
            if is_neg ret
            then handled (minus 1) [] log dev'
            else demo_null_io_handler fuel pid answers log dev'
      ]
