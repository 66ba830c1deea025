-- ===== src/Tests/Lifecycle.antt =====
-- The start and the end of a device of the target, and what is told of it.
use go_ublksrv.Base.{ℕ, ◌+◌, ◌^◌, ◌/◌, ◌≤◌, ◌≡◌, ◌||◌, ◌⊎◌, Bool, true, false, refl, some, [], ◌∷◌}
use go_ublksrv.Ctrl.Types.{Params}
use go_ublksrv.Tests.Drivers.{Store, storing, stored_dev}
use go_ublksrv.Ctrl.Add.{ublksrv_ctrl_add_dev}
use go_ublksrv.Target.Startup.{sends, startup, start_result}
use go_ublksrv.Target.Startup.Outcome.{told, fresh_dev, startup-Outcome}
use go_ublksrv.Word.{is_neg}
use go_ublksrv.Ctrl.Types.{Memory}
use go_ublksrv.Ctrl.Send.{CtrlDev, answered}
use go_ublksrv.Ctrl.Delete.{CtrlAnswers}
use go_ublksrv.Ctrl.Params.{init_params}
use go_ublksrv.Target.Shutdown.{
  World, exited, serving, delete, break_, meet, join, unregister, Reach, here, next,
}
use go_ublksrv.Target.Shutdown.Meets.{count_exited, unregister-deletes}
use go_ublksrv.Tests.Machine.{linux, linux-IsIoctl, little_endian}
use go_ublksrv.Tests.Drivers.{nobody, few, few-bound, free_entry, storing}

-- Two queues, and two deletions.
abbrev ended : World
ended = record {
  threads = exited ∷ exited ∷ [];
  deletes = 2;
  waiting = 0;
  joined = 2;
  registered = false;
}

two_deleted : Reach (serving 2) ended
two_deleted =
    next
      (next
        (next
          (next
            (next
              (next
                (next (next (next here (delete refl)) (break_ 0 refl refl)) (break_ 1 refl refl))
                (delete refl))
              (meet 1 1 refl refl refl))
            (meet 0 0 refl refl refl))
          (join refl refl))
        (join refl refl))
      (unregister refl refl)

unregister-deletes_example :
    (2 ≤ ended.deletes) × (count_exited ended.threads ≡ 2) × (ended.waiting + 2 ≤ ended.deletes)
unregister-deletes_example = unregister-deletes 2 two_deleted refl

-- A driver that has the parameters of a device with half a MiB and some bytes.
abbrev half_mib : ℕ
half_mib = 524300

abbrev denied : CtrlAnswers Bool
denied = record { open_ctrl = 6; ring_init = (0, false); ring_fd = 7 }

-- No device is added, and no parameters are taken.
startup-Outcome_example :
    (((is_neg denied.open_ctrl || is_neg denied.ring_init.0) ≡ true)
      × (startup 2 4 64 half_mib denied ≡ sends true ∷ []))
    ⊎ ((ret : ℕ) × (memory : Memory) × (dev1 : CtrlDev Bool) × (ret' : ℕ) × (memory' : Memory)
        × (dev2 : CtrlDev Bool) × (ublksrv_ctrl_add_dev 2 (fresh_dev denied 4 64)
            ≡ answered ret memory dev1)
        × (init_params 2 (half_mib / 2 ^ 9) dev1 ≡ answered ret' memory' dev2)
        × (startup 2 4 64 half_mib denied ≡ told (is_neg ret) (is_neg ret') dev2)
        × (start_result (startup 2 4 64 half_mib denied) ≡ some (is_neg ret || is_neg ret')))
startup-Outcome_example =
    startup-Outcome linux-IsIoctl few free_entry 2 few-bound 4 64 half_mib denied

-- The driver answers 0 to the queries, and has the parameters of a device without sectors.
abbrev opened : CtrlAnswers Store
opened = record { open_ctrl = 6; ring_init = (0, stored_dev.ring); ring_fd = 7 }
