-- ===== src/Daemon/Setup.antt =====
-- The device of a server's process.
pub mod Leaks
use go_ublksrv.Base.{
  ℕ, zero, suc, Bool, true, false, Option, none, some, List, [], ◌∷◌, ◌==◌, not, if◌then◌else◌,
}
use go_ublksrv.Word.{is_neg}
use go_ublksrv.Dev.{DevInfo, TgtInfo, Dev}
use go_ublksrv.Daemon.PidFile.{FileAnswers, FileLog, Created, ublksrv_create_pid_file}

-- What the system answers: `calloc`, `open` of the character device, and the calls for the pid file.
pub record SetupAnswers : Type 0 where
  pub allocates : Bool
  pub opens_dev : ℕ
  pub files : FileAnswers

abbrev zeros : ℕ → List ℕ
zeros zero = []
zeros (suc n) = 0 ∷ zeros n

-- The device as `calloc` and the first lines leave it: `fds` has UBLKSRV_TGT_MAX_FDS places.
unfoldable pub opened_dev : DevInfo → (cdev_fd : ℕ) → Dev
opened_dev info cdev_fd = record {
  tgt = record {
    tgt_ring_depth = 0;
    nr_fds = 0;
    fds = cdev_fd ∷ zeros 31;
    extra_ios = 0;
    io_data_size = 0;
    iowq_max_workers = (0, 0);
  };
  cdev_fd = cdev_fd;
  pid_file_fd = 0;
  dev_info = info;
  cq_depth = 0;
}

-- `none` is NULL. `run_dir` and `left_over` are those of the pid file.
unfoldable pub ublksrv_dev_init :
    DevInfo → SetupAnswers → (run_dir : Bool) (left_over : ℕ) → FileLog → Option Dev × FileLog
unfolding opened_dev
ublksrv_dev_init info answers run_dir left_over log =
    let made : Created = ublksrv_create_pid_file run_dir answers.files left_over 0 log in
    let dev : Dev = opened_dev info answers.opens_dev in
    if not answers.allocates
    then (none, log)
    else if is_neg answers.opens_dev
    then (none, log)
    else if not (made.ret == 0)
    then (none, made.log)
    else (
      some (record dev { pid_file_fd = elim made.pid_fd [ none ↦ 0 | some fd ↦ fd ] }),
      made.log,
    )
