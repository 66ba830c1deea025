-- ===== src/Ctrl/Add.antt =====
-- A device is added: the encoded command, and the legacy one where it fails.
use mathlib.Core.List.{append_assoc}
use go_ublksrv.Base.{
  ℕ, ◌<◌, ◌≡◌, ◌⊎◌, ◌++◌, ◌∙◌, false, refl, [], ◌∷◌, arith, ap, if◌then◌else◌, Bool-cases, inl, inr,
}
use go_ublksrv.Bits.{has}
use go_ublksrv.Word.{is_neg}
use go_ublksrv.Ioctl.{Ioctl, IsIoctl}
use go_ublksrv.Ctrl.Ops.{ublk_cmd_add_dev, sizeof_ctrl_cmd}
use go_ublksrv.Ctrl.Types.{Memory, own_info}
use go_ublksrv.Ctrl.Cmd.{CtrlCmdData}
use go_ublksrv.Ctrl.Send.{
  CtrlRing, FewSignals, CtrlDev, Answer, answered, ublksrv_ctrl_cmd, and_then,
}
use go_ublksrv.Ctrl.Info.{sizeof_dev_info, keep_info}
use go_ublksrv.Ctrl.Info.Queries.{numbers, NeverFull, ctrl_cmd-numbers}

module _ {K : Type 0} where
  unfoldable pub add_cmd : (cmd_op : ℕ) → CtrlDev K → CtrlCmdData
  add_cmd cmd_op dev = record {
    cmd_op = cmd_op;
    flags = 6;
    data0 = 0;
    dev_path_len = 0;
    addr = own_info dev.dev_info;
    len = sizeof_dev_info;
  }

module _ {K : Type 0} ⦃m : Ioctl⦄ ⦃c : CtrlRing K⦄ where
  -- `__ublksrv_ctrl_add_dev`; the driver writes to the device's `dev_info` itself.
  unfoldable pub add_dev_op : (fuel cmd_op : ℕ) → CtrlDev K → Answer K
  unfolding add_cmd
  add_dev_op fuel cmd_op dev =
      and_then (ublksrv_ctrl_cmd fuel (add_cmd cmd_op dev) dev)
        (λ ret memory dev'. answered ret memory (keep_info false ret memory dev'))

  unfoldable pub ublksrv_ctrl_add_dev : (fuel : ℕ) → CtrlDev K → Answer K
  unfolding add_dev_op
  ublksrv_ctrl_add_dev fuel dev =
      and_then (add_dev_op fuel (m.iowr b'u' ublk_cmd_add_dev sizeof_ctrl_cmd) dev)
        (λ ret memory dev'.
          if is_neg ret then add_dev_op fuel ublk_cmd_add_dev dev' else answered ret memory dev')

module _ {K : Type 0} ⦃m : Ioctl⦄ ⦃c : CtrlRing K⦄ (laws : IsIoctl m) (few : FewSignals c)
    (room : NeverFull c) (fuel : ℕ) (bound : (k : K) → few.signals k < fuel) where
  add_dev_op-numbers :
      (cmd_op : ℕ) (dev : CtrlDev K)
      → m.ioc_nr cmd_op ≡ ublk_cmd_add_dev
      → (ret : ℕ) × (memory : Memory) × (dev' : CtrlDev K) × (add_dev_op fuel cmd_op dev
          ≡ answered ret memory dev')
        × (numbers dev' ≡ numbers dev ++ (ublk_cmd_add_dev ∷ []))
  unfolding add_dev_op add_cmd has
  add_dev_op-numbers cmd_op dev e =
      let (ret, memory, dev', run, same, log) =
        ctrl_cmd-numbers laws few room fuel bound (add_cmd cmd_op dev) dev refl (omega arith) in
      (
        ret,
        memory,
        keep_info false ret memory dev',
        ground arith,
        log ∙ ap (λ (x : ℕ). numbers dev ++ (x ∷ [])) e,
      )

  -- Adding a device is answered, and sends nothing but ADD_DEV: once, with a result that is no error,
  -- or twice. The control ring is never full, and the fuel of each wait is above the number of its
  -- interruptions.
  pub add_dev-tries :
      (dev : CtrlDev K)
      → (ret : ℕ) × (memory : Memory) × (dev' : CtrlDev K) × (ublksrv_ctrl_add_dev fuel dev
          ≡ answered ret memory dev')
        × (((is_neg ret ≡ false) × (numbers dev' ≡ numbers dev ++ (ublk_cmd_add_dev ∷ [])))
            ⊎ (numbers dev' ≡ numbers dev ++ (ublk_cmd_add_dev ∷ ublk_cmd_add_dev ∷ [])))
  unfolding ublksrv_ctrl_add_dev
  add_dev-tries dev =
      let encoded = laws.nr_of_iowr b'u' ublk_cmd_add_dev sizeof_ctrl_cmd (omega arith) in
      let legacy = laws.nr_of_legacy ublk_cmd_add_dev (omega arith) in
      let (ret, memory, dev1, run, log) =
        add_dev_op-numbers (m.iowr b'u' ublk_cmd_add_dev sizeof_ctrl_cmd) dev encoded in
      let (ret', memory', dev2, run', log') = add_dev_op-numbers ublk_cmd_add_dev dev1 legacy in
      elim (Bool-cases (is_neg ret)) [
        | inl failed ↦ (ret', memory', dev2, ground arith, inr (log' ∙ rw log (simp append_assoc)))
        | inr added ↦ (ret, memory, dev1, ground arith, inl (added, log))
      ]
