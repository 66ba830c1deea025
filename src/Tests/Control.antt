-- ===== src/Tests/Control.antt =====
-- Control commands at a driver that knows no device.
use go_ublksrv.Base.{
  ℕ, ◌≡◌, ◌⊎◌, ◌++◌, Bool, false, refl, some, List, [], ◌∷◌, arith, if◌then◌else◌, inl, inr, true,
  map,
}
use go_ublksrv.Bits.{has}
use go_ublksrv.Word.{is_neg, eopnotsupp, minus}
use go_ublksrv.Dev.{ublk_is_unprivileged}
use go_ublksrv.Ctrl.Ops.{
  ctrl_cmd_op, legacy_op_to_ioctl, ublk_cmd_get_dev_info, ublk_cmd_get_dev_info2,
}
use go_ublksrv.Ctrl.Types.{Memory, path}
use go_ublksrv.Ctrl.Cmd.{CtrlCmdData, CtrlSqe}
use go_ublksrv.Ctrl.Send.{CtrlDev, answered, ublksrv_ctrl_cmd}
use go_ublksrv.Ctrl.Send.Ends.{Answered, ctrl_cmd-Answered}
use go_ublksrv.Ctrl.Info.{ublksrv_ctrl_get_info}
use go_ublksrv.Ctrl.Info.Queries.{numbers, get_info-unprivileged}
use go_ublksrv.Ctrl.Info.Fallback.{Queries, Order}
use go_ublksrv.Ctrl.Delete.{
  ublksrv_ctrl_stop_dev, ublksrv_ctrl_del_dev, CtrlAnswers, ublksrv_ctrl_start_dev, cmd_dev_del,
}
use go_ublksrv.Ctrl.Delete.Whole.{named, cmd_dev_del-Outcome}
use go_ublksrv.Ctrl.Start.{Starts, start_dev-Starts}
use go_ublksrv.Ctrl.Delete.Order.{Outcome}
use go_ublksrv.Tests.Machine.{linux, linux-IsIoctl}
use go_ublksrv.Tests.Devices.{small_dev}
use go_ublksrv.Tests.Drivers.{nobody, few, few-bound, free_entry, asked_dev}

abbrev stop_cmd : CtrlCmdData
stop_cmd = record { cmd_op = 7; flags = 3; data0 = 0; dev_path_len = 32; addr = path 0; len = 32 }

ctrl_cmd-Answered_example :
    (ret : ℕ) × (memory : Memory) × (dev' : CtrlDev Bool) × (ublksrv_ctrl_cmd 2 stop_cmd asked_dev
      ≡ answered ret memory dev')
    × Answered stop_cmd asked_dev ret dev'
unfolding has
ctrl_cmd-Answered_example =
    ctrl_cmd-Answered linux-IsIoctl few 2 stop_cmd asked_dev few-bound refl (omega arith)

get_info-unprivileged_example :
    (ret : ℕ) × (memory : Memory) × (dev' : CtrlDev Bool) × (ublksrv_ctrl_get_info 2
        small_dev.dev_info asked_dev
      ≡ answered ret memory dev')
    × (((is_neg ret ≡ false) × (numbers dev' ≡ 0x12 ∷ [])) ⊎ (numbers dev' ≡ 0x12 ∷ 0x12 ∷ []))
    × ((if is_neg ret then dev'.dev_info else asked_dev.dev_info) ≡ asked_dev.dev_info)
unfolding ublk_is_unprivileged has
get_info-unprivileged_example =
    get_info-unprivileged linux-IsIoctl few free_entry 2 few-bound small_dev.dev_info asked_dev refl

unknown_dev :
    (ret : ℕ) × (memory : Memory) × (dev1 : CtrlDev Bool) × (ublksrv_ctrl_get_info 2
        small_dev.dev_info asked_dev
      ≡ answered ret memory dev1)
unfolding ublksrv_ctrl_get_info ublk_is_unprivileged has legacy_op_to_ioctl ctrl_cmd_op
    ublksrv_ctrl_cmd
unknown_dev = (_, _, _, refl)

start_dev-Starts_example :
    (ret : ℕ) × (memory : Memory) × (dev' : CtrlDev Bool) × (sqe : CtrlSqe)
    × (ublksrv_ctrl_start_dev 2 100 asked_dev ≡ answered ret memory dev')
    × (dev'.dev_info ≡ record (asked_dev.dev_info) { ublksrv_pid = 100 })
    × (dev'.sent ≡ sqe ∷ [])
    × Starts asked_dev.dev_info 100 sqe
start_dev-Starts_example = start_dev-Starts linux-IsIoctl few free_entry 2 few-bound 100 asked_dev

abbrev privileged_dev : CtrlDev Bool
privileged_dev = record asked_dev { dev_info = small_dev.dev_info }

abbrev opens_both : CtrlAnswers Bool
opens_both = record { open_ctrl = 5; ring_init = (0, true); ring_fd = 6 }

cmd_dev_del-Outcome_example :
    ((false ≡ true)
      × (cmd_dev_del 2 small_dev.dev_info opens_both 3 ≡ (inl (minus eopnotsupp), [])))
    ⊎ ((ret : ℕ) × (memory : Memory) × (dev' : CtrlDev Bool) × (asked : ℕ) × (memory1 : Memory)
        × (dev1 : CtrlDev Bool) × (code2 : ℕ) × (code : ℕ) × (words : List ℕ) × (log : List ℕ)
        × (legacy_op_to_ioctl ublk_cmd_get_dev_info2 ≡ some code2)
        × (legacy_op_to_ioctl ublk_cmd_get_dev_info ≡ some code)
        × (ublksrv_ctrl_get_info 2 small_dev.dev_info (named opens_both 3)
            ≡ answered asked memory1 dev1)
        × (cmd_dev_del 2 small_dev.dev_info opens_both 3
            ≡ (inr (answered ret memory dev'), 6 ∷ 5 ∷ []))
        × (numbers dev' ≡ map linux.ioc_nr words ++ log)
        × Queries 2 small_dev.dev_info asked dev1 (named opens_both 3) words
        × Order code2 code asked words
        × (stop : ℕ) × (memory2 : Memory) × (dev2 : CtrlDev Bool) × (ublksrv_ctrl_stop_dev 2 dev1
            ≡ answered stop memory2 dev2)
        × (del : ℕ) × (memory3 : Memory) × (dev3 : CtrlDev Bool) × (ublksrv_ctrl_del_dev 2 dev2
            ≡ answered del memory3 dev3)
        × Outcome asked stop del ret log)
cmd_dev_del-Outcome_example =
    cmd_dev_del-Outcome linux-IsIoctl few free_entry 2 few-bound small_dev.dev_info opens_both 3
