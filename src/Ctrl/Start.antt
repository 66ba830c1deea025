-- ===== src/Ctrl/Start.antt =====
-- What starting a device tells the driver.
use go_ublksrv.Base.{
  ℕ, ◌^◌, ◌<◌, ◌≡◌, ◌++◌, ◌∙◌, true, refl, none, some, [], ◌∷◌, arith, if◌then◌else◌, inl, inr,
}
use go_ublksrv.Bits.{has}
use go_ublksrv.Ioctl.{Ioctl, IsIoctl}
use go_ublksrv.Dev.{DevInfo, ublk_is_unprivileged}
use go_ublksrv.Ctrl.Ops.{ublk_cmd_start_dev}
use go_ublksrv.Ctrl.Types.{Memory, path}
use go_ublksrv.Ctrl.Cmd.{
  CtrlCmdData, CtrlSqe, Carries, sendable, ctrl_cmd_has_data, ctrl_cmd_has_buf,
}
use go_ublksrv.Ctrl.Send.{CtrlRing, FewSignals, CtrlDev, answered}
use go_ublksrv.Ctrl.Send.Ends.{ctrl_cmd-Answered}
use go_ublksrv.Ctrl.Info.Queries.{NeverFull}
use go_ublksrv.Ctrl.Delete.{bare, un_privileged_prep_data, sign_extend, ublksrv_ctrl_start_dev}

-- The command of a start.
abbrev start_cmd : DevInfo → (daemon_pid : ℕ) → CtrlCmdData
start_cmd info daemon_pid =
    record (un_privileged_prep_data info
      (record (bare ublk_cmd_start_dev) { flags = ctrl_cmd_has_data })) {
        data0 = sign_extend daemon_pid;
      }

start_cmd-fits :
    (info : DevInfo) (pid : ℕ)
    → (sendable (start_cmd info pid) ≡ true)
      × ((start_cmd info pid).len < 2 ^ 16)
      × ((start_cmd info pid).cmd_op ≡ ublk_cmd_start_dev)
      × (has (start_cmd info pid).flags ctrl_cmd_has_data ≡ true)
      × (has (start_cmd info pid).flags ctrl_cmd_has_buf ≡ ublk_is_unprivileged info)
      × ((start_cmd info pid).dev_path_len ≡ (if ublk_is_unprivileged info then 32 else 0))
unfolding un_privileged_prep_data has
start_cmd-fits info pid =
    (ground arith, ground arith, ground arith, ground arith, ground arith, ground arith)

-- The entry of a start: its number, the pid as 64 bits, and the path of the device where the driver
-- has to check it.
pub record Starts ⦃m : Ioctl⦄ (info : DevInfo) (pid : ℕ) (sqe : CtrlSqe) : Type 0 where
  pub number : m.ioc_nr sqe.off.0 ≡ ublk_cmd_start_dev
  pub device : sqe.dev_id ≡ info.dev_id
  pub pid_sent :
      sqe.data_path_len ≡ some (sign_extend pid, (if ublk_is_unprivileged info then 32 else 0))
  pub path_sent :
      sqe.addr_len ≡ (if ublk_is_unprivileged info then some (path info.dev_id, 32) else none)

module _ ⦃m : Ioctl⦄ (laws : IsIoctl m) where
  Carries-Starts :
      (info own : DevInfo) (pid : ℕ) (sqe : CtrlSqe)
      → own.dev_id ≡ info.dev_id
      → Carries own (start_cmd info pid) sqe
      → Starts info pid sqe
  unfolding un_privileged_prep_data has
  Carries-Starts info own pid sqe same c =
      let (known, fits, op, with_data, with_buf, len) = start_cmd-fits info pid in
      record {
        number = ground (arith, c.number, laws.nr_of_legacy ublk_cmd_start_dev);
        device = c.device ∙ same;
        pid_sent = c.inline_data ∙ ground arith;
        path_sent = c.buffer ∙ ground arith;
      }

module _ {K : Type 0} ⦃m : Ioctl⦄ ⦃c : CtrlRing K⦄ (laws : IsIoctl m) (few : FewSignals c)
    (room : NeverFull c) (fuel : ℕ) (bound : (k : K) → few.signals k < fuel) where
  -- Starting a device is answered: the daemon's pid is stored in `dev_info` whatever the answer is,
  -- and exactly one entry goes out, a START_DEV with the pid as inline data, and with the path of the
  -- device where it is unprivileged. The control ring is never full, and the fuel of the wait is
  -- above the number of its interruptions.
  pub start_dev-Starts :
      (pid : ℕ) (dev : CtrlDev K)
      → (ret : ℕ) × (memory : Memory) × (dev' : CtrlDev K) × (sqe : CtrlSqe)
        × (ublksrv_ctrl_start_dev fuel pid dev ≡ answered ret memory dev')
        × (dev'.dev_info ≡ record (dev.dev_info) { ublksrv_pid = pid })
        × (dev'.sent ≡ dev.sent ++ (sqe ∷ []))
        × Starts dev.dev_info pid sqe
  unfolding ublksrv_ctrl_start_dev
  start_dev-Starts pid dev =
      let info = record (dev.dev_info) { ublksrv_pid = pid } in
      let dev0 = record dev { dev_info = info } in
      let (known, fits, _, _, _, _) = start_cmd-fits dev.dev_info pid in
      let (ret, memory, dev', run, a) =
        ctrl_cmd-Answered laws few fuel (start_cmd dev.dev_info pid) dev0 bound known fits in
      let (k, got) = room dev.ring in
      elim a.log [
        | inl (full, _, _) ↦ absurd (ground arith)
        | inr (sqe, log, carries) ↦ (
          ret,
          memory,
          dev',
          sqe,
          run,
          a.same_info,
          log,
          Carries-Starts laws dev.dev_info info pid sqe refl carries,
        )
      ]
