-- ===== src/Daemon/Start/Ends.antt =====
-- How the daemon ends.
use go_ublksrv.Base.{
  ℕ, ◌≡◌, ◌&&◌, ◌||◌, not, Bool, true, false, List, [], ◌∷◌, ◌++◌, ◌==◌, if◌then◌else◌,
}
use go_ublksrv.Word.{minus, is_neg, enomem}
use go_ublksrv.Ioctl.{Ioctl}
use go_ublksrv.Dev.{Dev}
use go_ublksrv.Daemon.PidFile.Outcomes.{all_well}
use go_ublksrv.Daemon.Setup.Leaks.{has_dev}
use go_ublksrv.Daemon.Start.{
  Step, start_sent, infos_freed, create_threads, join_threads, DaemonAnswers,
}
use go_ublksrv.Daemon.Start.Order.{
  created_qids, joined_qids, until_start, freed_in_use, numbers_from,
}

-- How a daemon with `n` queues ends once the CPUs are known: with -ENOMEM and nothing created, where
-- it is not ready; or with a thread for each queue, made in
-- order before the START_DEV. If the device starts all of them are waited for; else none is, and the
-- array that they read is freed.
pub data Ended (n : ℕ) (ready : Bool) (ret : ℕ) (steps : List Step) : Type 0 where
  not_ready : ready ≡ false → ret ≡ minus enomem → created_qids steps ≡ [] → Ended n ready ret steps
  served :
      ready ≡ true
      → created_qids (until_start steps) ≡ numbers_from n 0
      → created_qids steps ≡ numbers_from n 0
      → joined_qids steps ≡ (if is_neg ret then [] else numbers_from n 0)
      → freed_in_use 0 steps ≡ (is_neg ret && not (n == 0))
      → Ended n ready ret steps

-- The array can be allocated, and the device be set up.
abbrev pub ready : DaemonAnswers → Bool
ready answers =
    answers.allocates_infos
    && (has_dev answers.setup && (not answers.run_dir || all_well answers.setup.files))

-- The steps of a daemon whose start fails, and of one that is served to the end.
abbrev unserved : Dev → (n : ℕ) → List Step
unserved d n = create_threads d n 0 ++ (start_sent ∷ infos_freed ∷ [])

abbrev all_served : Dev → (n : ℕ) → List Step
all_served d n = create_threads d n 0 ++ (start_sent ∷ (join_threads n 0 ++ (infos_freed ∷ [])))
