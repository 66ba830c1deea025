-- ===== src/Tests/Daemons.antt =====
-- Pid files, the setup of a device, and a daemon that a driver serves.
use go_ublksrv.Base.{◌≡◌, true, false, refl, none, [], ◌∷◌, arith, inl}
use go_ublksrv.Word.{minus}
use go_ublksrv.Daemon.PidFile.{FileAnswers, FileLog, ublksrv_create_pid_file}
use go_ublksrv.Daemon.PidFile.Outcomes.{IsPosix, create_pid_file-Outcome}
use go_ublksrv.Daemon.Setup.{SetupAnswers, ublksrv_dev_init}
use go_ublksrv.Daemon.Setup.Leaks.{dev_init-Outcome}
use go_ublksrv.Daemon.Start.{DaemonAnswers}
use go_ublksrv.Tests.Machine.{linux}
use go_ublksrv.Tests.Devices.{small_dev}
use go_ublksrv.Tests.Drivers.{storing}

-- A full disk: the file opens, and the line cannot be written.
abbrev full_disk : FileAnswers
full_disk = record { opens = 9; truncates = 0; writes_all = false }

full_disk-IsPosix : IsPosix full_disk
full_disk-IsPosix = record { open_fails = λ e. absurd (ground arith); truncate_fails = inl refl }

abbrev no_files : FileLog
no_files = record { closed = []; unlinked = 0 }

create_pid_file-Outcome_example :
    let made = ublksrv_create_pid_file true full_disk 3 0 no_files in
    (made.ret ≡ minus 1)
    × (made.pid_fd ≡ none)
    × (made.log.closed ≡ 9 ∷ 3 ∷ [])
    × (made.log.unlinked ≡ 2)
create_pid_file-Outcome_example = create_pid_file-Outcome full_disk 3 0 no_files full_disk-IsPosix

abbrev opened_7 : SetupAnswers
opened_7 = record { allocates = true; opens_dev = 7; files = full_disk }

dev_init-Outcome_example :
    ((ublksrv_dev_init small_dev.dev_info opened_7 true 3 no_files).0 ≡ none)
    × ((ublksrv_dev_init small_dev.dev_info opened_7 true 3 no_files).1.closed ≡ 9 ∷ 3 ∷ [])
dev_init-Outcome_example =
    dev_init-Outcome small_dev.dev_info opened_7 true 3 no_files full_disk-IsPosix

abbrev no_pid_file : DaemonAnswers
no_pid_file = record {
  allocates_sets = true;
  allocates_infos = true;
  setup = opened_7;
  run_dir = false;
  left_over_cpus = 0;
  left_over_fd = 3;
}
