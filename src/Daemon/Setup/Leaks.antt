-- ===== src/Daemon/Setup/Leaks.antt =====
-- When a device is set up, and what stays open where it is not.
use go_ublksrv.Base.{
  ℕ, ◌≡◌, ◌&&◌, ◌||◌, not, Bool, true, false, none, some, List, [], ◌∷◌, ◌++◌, arith, if◌then◌else◌,
  Bool-cases, inl, inr,
}
use go_ublksrv.Word.{is_neg}
use go_ublksrv.Dev.{DevInfo, Dev}
use go_ublksrv.Daemon.PidFile.{FileAnswers, FileLog, ublksrv_create_pid_file}
use go_ublksrv.Daemon.PidFile.Outcomes.{IsPosix, all_well, create_pid_file-Outcome}
use go_ublksrv.Daemon.Setup.{SetupAnswers, opened_dev, ublksrv_dev_init}

abbrev pub has_dev : SetupAnswers → Bool
has_dev answers = answers.allocates && not (is_neg answers.opens_dev)

-- The device with its pid file.
abbrev pub set_up : DevInfo → SetupAnswers → (run_dir : Bool) → Dev
set_up info answers run_dir = record (opened_dev info answers.opens_dev) {
  pid_file_fd = if run_dir then answers.files.opens else 0;
}

-- What is closed where the pid file cannot be made.
abbrev pub closed_by : FileAnswers → (left_over : ℕ) → List ℕ
closed_by files left_over =
    if is_neg files.opens then left_over ∷ [] else files.opens ∷ left_over ∷ []

-- A device is set up exactly where it is allocated and its character device opens, and the pid file
-- is made or not wanted: then the descriptor of the character device is its own and the first of the
-- target's, and that of the pid file is kept. Else the result is NULL. The character device is not
-- closed on any path: closed are at most the descriptor of the pid file, and a variable that was
-- never written. `open` and `ftruncate` answer as POSIX says.
pub dev_init-Outcome :
    (info : DevInfo) (answers : SetupAnswers) (run_dir : Bool) (left_over : ℕ) (log : FileLog)
    → IsPosix answers.files
    → ((ublksrv_dev_init info answers run_dir left_over log).0 ≡ (
        if has_dev answers && (not run_dir || all_well answers.files)
        then some (set_up info answers run_dir)
        else none))
      × ((ublksrv_dev_init info answers run_dir left_over log).1.closed ≡ (
          if has_dev answers && (run_dir && not (all_well answers.files))
          then log.closed ++ closed_by answers.files left_over
          else log.closed))
unfolding ublksrv_dev_init ublksrv_create_pid_file
dev_init-Outcome info answers false left_over log posix = (ground arith, ground arith)
dev_init-Outcome info answers true left_over log posix =
    let (result, kept, closed_, _) = create_pid_file-Outcome answers.files left_over 0 log posix in
    elim (Bool-cases (all_well answers.files)) [
      | inl well ↦
          (ground (arith, result, kept, closed_, well), ground (arith, result, kept, closed_, well))
      | inr bad ↦ elim (Bool-cases (is_neg answers.files.opens)) [
        | inl shut ↦ (
          ground (arith, result, kept, closed_, bad, shut),
          ground (arith, result, kept, closed_, bad, shut),
        )
        | inr opened ↦ (
          ground (arith, result, kept, closed_, bad, opened),
          ground (arith, result, closed_, bad, opened),
        )
      ]
    ]
