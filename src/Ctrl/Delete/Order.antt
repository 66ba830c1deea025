-- ===== src/Ctrl/Delete/Order.antt =====
-- What the deletion of a device sends, and what it answers.
use mathlib.Core.List.{append_assoc, append-nil}
use go_ublksrv.Base.{
  ℕ, ◌^◌, ◌<◌, ◌≡◌, ◌++◌, ◌||◌, true, false, refl, List, [], ◌∷◌, arith, Bool-cases, inl, inr, ap,
  ◌∙◌,
}
use go_ublksrv.Bits.{has}
use go_ublksrv.Word.{is_neg}
use go_ublksrv.Ioctl.{Ioctl, IsIoctl}
use go_ublksrv.Dev.{DevInfo}
use go_ublksrv.Ctrl.Ops.{reads_only, writes, ublk_cmd_stop_dev, ublk_cmd_del_dev}
use go_ublksrv.Ctrl.Types.{Memory}
use go_ublksrv.Ctrl.Cmd.{sendable}
use go_ublksrv.Ctrl.Send.{CtrlRing, FewSignals, CtrlDev, answered, ublksrv_ctrl_cmd}
use go_ublksrv.Ctrl.Info.{ublksrv_ctrl_get_info}
use go_ublksrv.Ctrl.Info.Queries.{numbers, NeverFull, ctrl_cmd-numbers}
use go_ublksrv.Ctrl.Delete.{
  un_privileged_prep_data, bare, ublksrv_ctrl_stop_dev, ublksrv_ctrl_del_dev, delete_known,
}

prep-fits :
    (info : DevInfo) (op : ℕ)
    → (reads_only op || writes op) ≡ true
    → (sendable (un_privileged_prep_data info (bare op)) ≡ true)
      × ((un_privileged_prep_data info (bare op)).len < 2 ^ 16)
      × ((un_privileged_prep_data info (bare op)).cmd_op ≡ op)
unfolding un_privileged_prep_data has
prep-fits info op known = (ground (arith, known), ground arith, ground arith)

-- What the deletion comes to after a query that answered `asked`, where the stop answers `stop` and
-- the deletion behind it `del`: its result, and the commands that it sent behind the query.
pub data Outcome (asked stop del ret : ℕ) (log : List ℕ) : Type 0 where
  unknown : is_neg asked ≡ true → ret ≡ 0 → log ≡ [] → Outcome asked stop del ret log
  not_stopped :
      is_neg asked ≡ false
      → is_neg stop ≡ true
      → ret ≡ stop
      → log ≡ ublk_cmd_stop_dev ∷ []
      → Outcome asked stop del ret log
  stopped :
      is_neg asked ≡ false
      → is_neg stop ≡ false
      → ret ≡ del
      → log ≡ ublk_cmd_stop_dev ∷ ublk_cmd_del_dev ∷ []
      → Outcome asked stop del ret log

module _ {K : Type 0} ⦃m : Ioctl⦄ ⦃c : CtrlRing K⦄ (laws : IsIoctl m) (few : FewSignals c)
    (room : NeverFull c) (fuel : ℕ) (bound : (k : K) → few.signals k < fuel) where
  prepared-numbers :
      (op : ℕ) (dev : CtrlDev K)
      → (reads_only op || writes op) ≡ true
      → (ret : ℕ) × (memory : Memory) × (dev' : CtrlDev K) × (ublksrv_ctrl_cmd fuel
            (un_privileged_prep_data dev.dev_info (bare op))
            dev
          ≡ answered ret memory dev')
        × (numbers dev' ≡ numbers dev ++ (op ∷ []))
  prepared-numbers op dev known =
      let (can, fits, same) = prep-fits dev.dev_info op known in
      let (ret, memory, dev', run, info, log) =
        ctrl_cmd-numbers laws few room fuel bound (un_privileged_prep_data dev.dev_info (bare op))
          dev can fits in
      (
        ret,
        memory,
        dev',
        run,
        log
            ∙ ap (λ (x : ℕ). numbers dev ++ (x ∷ []))
                (ap m.ioc_nr same ∙ laws.nr_of_legacy op (ground (arith, known))),
      )

  -- After the query of its info, which answered `asked`, a device is stopped and then deleted: where
  -- the query failed nothing is sent and the result is 0, not the error; where the stop fails it is
  -- the last command and its answer is the result; else the deletion is sent, with its answer. The
  -- control ring is never full, and the fuel of each wait is above the number of its interruptions.
  pub delete_known-Outcome :
      (junk : DevInfo) (dev : CtrlDev K) {asked : ℕ} {memory : Memory} {dev1 : CtrlDev K}
      → ublksrv_ctrl_get_info fuel junk dev ≡ answered asked memory dev1
      → (ret : ℕ) × (memory' : Memory) × (dev' : CtrlDev K) × (log : List ℕ) × (delete_known fuel
            junk dev
          ≡ answered ret memory' dev')
        × (numbers dev' ≡ numbers dev1 ++ log)
        × (stop : ℕ) × (memory2 : Memory) × (dev2 : CtrlDev K) × (ublksrv_ctrl_stop_dev fuel dev1
            ≡ answered stop memory2 dev2)
        × (del : ℕ) × (memory3 : Memory) × (dev3 : CtrlDev K) × (ublksrv_ctrl_del_dev fuel dev2
            ≡ answered del memory3 dev3)
        × Outcome asked stop del ret log
  unfolding delete_known ublksrv_ctrl_stop_dev ublksrv_ctrl_del_dev
  delete_known-Outcome junk dev {asked} {memory} {dev1} e =
      let (ret, memory2, dev2, run, log) = prepared-numbers ublk_cmd_stop_dev dev1 refl in
      let (ret', memory3, dev3, run', log') = prepared-numbers ublk_cmd_del_dev dev2 refl in
      elim (Bool-cases (is_neg asked)) [
        | inl failed ↦ (
          0,
          memory,
          dev1,
          [],
          ground arith,
          ground (arith, append-nil (numbers dev1)),
          ret,
          memory2,
          dev2,
          run,
          ret',
          memory3,
          dev3,
          run',
          unknown failed refl refl,
        )
        | inr found ↦ elim (Bool-cases (is_neg ret)) [
          | inl failed ↦ (
            ret,
            memory2,
            dev2,
            ublk_cmd_stop_dev ∷ [],
            ground arith,
            log,
            ret,
            memory2,
            dev2,
            run,
            ret',
            memory3,
            dev3,
            run',
            not_stopped found failed refl refl,
          )
          | inr gone ↦ (
            ret',
            memory3,
            dev3,
            ublk_cmd_stop_dev ∷ ublk_cmd_del_dev ∷ [],
            ground arith,
            log' ∙ rw log (simp append_assoc),
            ret,
            memory2,
            dev2,
            run,
            ret',
            memory3,
            dev3,
            run',
            stopped found gone refl refl,
          )
        ]
      ]
