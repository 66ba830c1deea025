-- ===== src/Ctrl/Info/Queries.antt =====
-- Which queries are sent for a device's info.
use mathlib.Core.List.{map-append, append_assoc}
use go_ublksrv.Base.{
  ℕ, ◌^◌, ◌<◌, ◌≡◌, ◌⊎◌, ◌++◌, ◌&&◌, Bool, true, false, refl, some, List, [], ◌∷◌, map, arith, ◌==◌,
  if◌then◌else◌, Bool-cases, inl, inr, ap, ◌∙◌,
}
use go_ublksrv.Bits.{has}
use go_ublksrv.Word.{is_neg}
use go_ublksrv.Ioctl.{Ioctl, IsIoctl}
use go_ublksrv.Dev.{DevInfo, ublk_is_unprivileged}
use go_ublksrv.Ctrl.Ops.{ublk_cmd_get_dev_info, ublk_cmd_get_dev_info2, ioc_nr-legacy_op_to_ioctl}
use go_ublksrv.Ctrl.Types.{Memory}
use go_ublksrv.Ctrl.Cmd.{CtrlCmdData, CtrlSqe, sendable}
use go_ublksrv.Ctrl.Send.{CtrlRing, FewSignals, CtrlDev, answered, ublksrv_ctrl_cmd}
use go_ublksrv.Ctrl.Send.Ends.{ctrl_cmd-Answered}
use go_ublksrv.Ctrl.Info.{
  info_cmd, get_info_no_trans, get_info_op, ublksrv_ctrl_get_info, keep_info,
}

-- The numbers of the commands that a device has sent.
abbrev pub numbers : {K : Type 0} ⦃m : Ioctl⦄ → CtrlDev K → List ℕ
numbers ⦃m⦄ dev = map (λ s. m.ioc_nr (CtrlSqe.off s).0) dev.sent

-- The control ring is never full: each command is waited for before the next.
abbrev pub NeverFull : {K : Type 0} → CtrlRing K → Type 0
NeverFull {K} c = (k : K) → (k' : K) × (c.get_sqe k ≡ some k')

module _ {K : Type 0} ⦃m : Ioctl⦄ ⦃c : CtrlRing K⦄ (laws : IsIoctl m) (few : FewSignals c)
    (room : NeverFull c) (fuel : ℕ) (bound : (k : K) → few.signals k < fuel) where
  -- A command is answered, and its number is the one that is sent.
  pub ctrl_cmd-numbers :
      (cmd : CtrlCmdData) (dev : CtrlDev K)
      → sendable cmd ≡ true
      → cmd.len < 2 ^ 16
      → (ret : ℕ) × (memory : Memory) × (dev' : CtrlDev K) × (ublksrv_ctrl_cmd fuel cmd dev
          ≡ answered ret memory dev')
        × (dev'.dev_info ≡ dev.dev_info)
        × (numbers dev' ≡ numbers dev ++ (m.ioc_nr cmd.cmd_op ∷ []))
  ctrl_cmd-numbers cmd dev known fits =
      let (ret, memory, dev', run, a) = ctrl_cmd-Answered laws few fuel cmd dev bound known fits in
      let (k, got) = room dev.ring in
      (
        ret,
        memory,
        dev',
        run,
        a.same_info,
        elim a.log [
          | inl (full, _, _) ↦ absurd (ground arith)
          | inr (sqe, log, carries) ↦ rw log (simp (map-append, carries.number))
        ],
      )

  pub info_cmd-fits :
      (junk : DevInfo) (cmd_op : ℕ) (dev : CtrlDev K)
      → (sendable (info_cmd junk cmd_op dev) ≡ true)
        × ((info_cmd junk cmd_op dev).len < 2 ^ 16)
        × ((info_cmd junk cmd_op dev).cmd_op ≡ cmd_op)
  unfolding info_cmd has
  info_cmd-fits junk cmd_op dev = (ground arith, ground arith, ground arith)

  pub keep_info-numbers :
      (path : Bool) (ret : ℕ) (memory : Memory) (dev : CtrlDev K)
      → numbers (keep_info path ret memory dev) ≡ numbers dev
  keep_info-numbers path ret memory dev = ground arith

  -- A query that is sent.
  pub no_trans-numbers :
      (junk : DevInfo) (n cmd_op : ℕ) (dev : CtrlDev K)
      → m.ioc_nr cmd_op ≡ n
      → (ublk_is_unprivileged dev.dev_info && n == ublk_cmd_get_dev_info) ≡ false
      → (ret : ℕ) × (memory : Memory) × (dev' : CtrlDev K) × (get_info_no_trans fuel junk cmd_op dev
          ≡ answered ret memory dev')
        × (numbers dev' ≡ numbers dev ++ (n ∷ []))
        × ((if n == ublk_cmd_get_dev_info2 && is_neg ret then dev'.dev_info else dev.dev_info)
            ≡ dev.dev_info)
  unfolding get_info_no_trans
  no_trans-numbers junk n cmd_op dev e allowed =
      let (known, fits, op) = info_cmd-fits junk cmd_op dev in
      let (ret, memory, dev', run, same, log) =
        ctrl_cmd-numbers (info_cmd junk cmd_op dev) dev known fits in
      (
        ret,
        memory,
        keep_info (n == ublk_cmd_get_dev_info2) ret memory dev',
        ground arith,
        keep_info-numbers (n == ublk_cmd_get_dev_info2) ret memory dev'
            ∙ log
            ∙ ap (λ (x : ℕ). numbers dev ++ (x ∷ [])) (ap m.ioc_nr op ∙ e),
        ground arith,
      )

  -- The two encodings of GET_DEV_INFO2, one after the other.
  pub info2-numbers :
      (junk : DevInfo) (dev : CtrlDev K)
      → (ret : ℕ) × (memory : Memory) × (dev' : CtrlDev K) × (get_info_op fuel junk
            ublk_cmd_get_dev_info2 dev
          ≡ answered ret memory dev')
        × (((is_neg ret ≡ false) × (numbers dev' ≡ numbers dev ++ (ublk_cmd_get_dev_info2 ∷ [])))
            ⊎ (numbers dev'
                ≡ numbers dev ++ (ublk_cmd_get_dev_info2 ∷ ublk_cmd_get_dev_info2 ∷ [])))
        × ((if is_neg ret then dev'.dev_info else dev.dev_info) ≡ dev.dev_info)
  unfolding get_info_op
  info2-numbers junk dev =
      let (code, coded, back) = ioc_nr-legacy_op_to_ioctl laws ublk_cmd_get_dev_info2 refl in
      let legacy = laws.nr_of_legacy ublk_cmd_get_dev_info2 (omega arith) in
      let (ret, memory, dev1, run, log, kept) =
        no_trans-numbers junk ublk_cmd_get_dev_info2 code dev back (ground arith) in
      let (ret', memory', dev2, run', log', kept') =
        no_trans-numbers junk ublk_cmd_get_dev_info2 ublk_cmd_get_dev_info2 dev1 legacy
          (ground arith) in
      elim (Bool-cases (is_neg ret)) [
        | inl failed ↦ (
          ret',
          memory',
          dev2,
          ground (arith, coded),
          inr (log' ∙ rw log (simp append_assoc)),
          ground arith,
        )
        | inr answered_ ↦
            (ret, memory, dev1, ground (arith, coded), inl (answered_, log), ground arith)
      ]

  -- An unprivileged device is asked with GET_DEV_INFO2 only, and never with GET_DEV_INFO: the query is
  -- answered, and sends the command once, with a result that is no error, or twice; and where the
  -- result is an error `dev_info` stays as it was. The control ring is never full, and the fuel of
  -- each wait is above the number of its interruptions.
  pub get_info-unprivileged :
      (junk : DevInfo) (dev : CtrlDev K)
      → ublk_is_unprivileged dev.dev_info ≡ true
      → (ret : ℕ) × (memory : Memory) × (dev' : CtrlDev K) × (ublksrv_ctrl_get_info fuel junk dev
          ≡ answered ret memory dev')
        × (((is_neg ret ≡ false) × (numbers dev' ≡ numbers dev ++ (ublk_cmd_get_dev_info2 ∷ [])))
            ⊎ (numbers dev'
                ≡ numbers dev ++ (ublk_cmd_get_dev_info2 ∷ ublk_cmd_get_dev_info2 ∷ [])))
        × ((if is_neg ret then dev'.dev_info else dev.dev_info) ≡ dev.dev_info)
  unfolding ublksrv_ctrl_get_info
  get_info-unprivileged junk dev unpriv =
      let (ret, memory, dev', run, log, kept) = info2-numbers junk dev in
      let same : ublk_is_unprivileged (if is_neg ret then dev'.dev_info else dev.dev_info) ≡ true =
        rw kept unpriv in
      (ret, memory, dev', ground arith, log, kept)
