-- ===== src/Daemon/PidFile.antt =====
-- The pid file of a device.
pub mod Outcomes
use go_ublksrv.Base.{
  ℕ, ◌+◌, Bool, true, false, not, ◌&&◌, Option, none, some, List, [], ◌∷◌, ◌++◌, ◌==◌,
  if◌then◌else◌,
}
use go_ublksrv.Word.{minus, is_neg}

-- What the system answers: `open` and `ftruncate`, each an `int`, and whether `write` takes the whole
-- line.
pub record FileAnswers : Type 0 where
  pub opens : ℕ
  pub truncates : ℕ
  pub writes_all : Bool

-- The descriptors closed, oldest first, and how often the pid file was unlinked.
pub record FileLog : Type 0 where
  pub closed : List ℕ
  pub unlinked : ℕ

abbrev pub close_and_unlink : (fd : ℕ) → FileLog → FileLog
close_and_unlink fd log = record { closed = log.closed ++ (fd ∷ []); unlinked = log.unlinked + 1 }

-- A result, the descriptor where it is stored for the caller, and the log.
pub record Created : Type 0 where
  pub ret : ℕ
  pub pid_fd : Option ℕ
  pub log : FileLog

unfoldable pub create_pid_file : FileAnswers → FileLog → Created
create_pid_file files log =
    let fd = files.opens in
    let ret : ℕ = if files.writes_all then files.truncates else minus 1 in
    if is_neg fd
    then record { ret = fd; pid_fd = none; log = log }
    else if files.truncates == minus 1
    then record { ret = minus 1; pid_fd = none; log = close_and_unlink fd log }
    else record {
      ret = ret;
      pid_fd = if files.writes_all then some fd else none;
      log = if ret == 0 then log else close_and_unlink fd log;
    }

-- `run_dir` says whether the device has one. `pid_fd` is a local variable that is not initialised:
-- `left_over` is what its place on the stack held.
unfoldable pub ublksrv_create_pid_file :
    (run_dir : Bool) → FileAnswers → (left_over pid_file_fd : ℕ) → FileLog → Created
unfolding create_pid_file
ublksrv_create_pid_file run_dir files left_over pid_file_fd log =
    let created = create_pid_file files log in
    let pid_fd : ℕ = elim created.pid_fd [ none ↦ left_over | some fd ↦ fd ] in
    if not run_dir
    then record { ret = 0; pid_fd = some pid_file_fd; log = log }
    else if is_neg created.ret
    then record {
      ret = created.ret;
      pid_fd = none;
      log = if created.ret == minus 1 then close_and_unlink pid_fd created.log else created.log;
    }
    else record { ret = 0; pid_fd = some pid_fd; log = created.log }
