-- ===== src/Ctrl/Delete/Whole.antt =====
-- The whole deletion of a device by its number.
use mathlib.Core.Path.{subst}
use go_ublksrv.Base.{
  ℕ, ◌<◌, ◌≡◌, ◌⊎◌, ◌++◌, ◌∙◌, ◌||◌, true, refl, some, map, List, [], ◌∷◌, arith, Bool-cases, inl,
  inr, ap,
}
use go_ublksrv.Bits.{has}
use go_ublksrv.Word.{minus, is_neg, eopnotsupp}
use go_ublksrv.Ioctl.{Ioctl, IsIoctl}
use go_ublksrv.Dev.{DevInfo, ublk_is_unprivileged}
use go_ublksrv.Ctrl.Types.{Memory}
use go_ublksrv.Ctrl.Send.{CtrlRing, FewSignals, CtrlDev, answered}
use go_ublksrv.Ctrl.Info.Queries.{numbers, NeverFull}
use go_ublksrv.Ctrl.Info.{ublksrv_ctrl_get_info}
use go_ublksrv.Ctrl.Ops.{ublk_cmd_get_dev_info, ublk_cmd_get_dev_info2, legacy_op_to_ioctl}
use go_ublksrv.Ctrl.Info.Fallback.{Queries, Order, get_info-privileged}
use go_ublksrv.Ctrl.Delete.{
  ublksrv_ctrl_stop_dev, ublksrv_ctrl_del_dev, CtrlAnswers, ublksrv_ctrl_init, ublksrv_ctrl_deinit,
  cmd_dev_del,
}
use go_ublksrv.Ctrl.Delete.Descriptors.{SameFd, delete_known-SameFd}
use go_ublksrv.Ctrl.Delete.Order.{Outcome, delete_known-Outcome}

-- The control device that is made for a number.
abbrev pub named : {K : Type 0} → CtrlAnswers K → (number : ℕ) → CtrlDev K
named answers number = record {
  ring = answers.ring_init.1;
  ctrl_fd = answers.open_ctrl;
  dev_info = record {
    nr_hw_queues = 0;
    queue_depth = 0;
    state = 0;
    max_io_buf_bytes = 0;
    dev_id = number;
    ublksrv_pid = 0;
    flags = 0;
    ublksrv_flags = 0;
    owner_uid = 0;
    owner_gid = 0;
  };
  sent = [];
}

module _ {K : Type 0} ⦃m : Ioctl⦄ ⦃c : CtrlRing K⦄ (laws : IsIoctl m) (few : FewSignals c)
    (room : NeverFull c) (fuel : ℕ) (bound : (k : K) → few.signals k < fuel) where
  -- A deletion by number always ends. Where the control device cannot be opened or its ring not be
  -- made, the result is -EOPNOTSUPP, and no descriptor is closed, also not that of the control device
  -- where it was opened. Else the info of the device `named` is asked for, which answers `asked`, with
  -- the queries and in the order of a privileged device, and behind them is sent nothing, a STOP_DEV,
  -- or a STOP_DEV and a DEL_DEV: nothing exactly where `asked` is negative, with the result 0; only
  -- the STOP_DEV exactly where it is answered with an error, which is the result; else the result is
  -- the answer of the DEL_DEV. Nothing else is sent. Then the descriptors of the ring and of the
  -- control device are closed. The control ring is never full, and the fuel of each wait is above the
  -- number of its interruptions.
  pub cmd_dev_del-Outcome :
      (junk : DevInfo) (answers : CtrlAnswers K) (number : ℕ)
      → (((is_neg answers.open_ctrl || is_neg answers.ring_init.0) ≡ true)
          × (cmd_dev_del fuel junk answers number ≡ (inl (minus eopnotsupp), [])))
        ⊎ ((ret : ℕ) × (memory : Memory) × (dev' : CtrlDev K) × (asked : ℕ) × (memory1 : Memory)
            × (dev1 : CtrlDev K) × (code2 : ℕ) × (code : ℕ) × (words : List ℕ) × (log : List ℕ)
            × (legacy_op_to_ioctl ublk_cmd_get_dev_info2 ≡ some code2)
            × (legacy_op_to_ioctl ublk_cmd_get_dev_info ≡ some code)
            × (ublksrv_ctrl_get_info fuel junk (named answers number) ≡ answered asked memory1 dev1)
            × (cmd_dev_del fuel junk answers number
                ≡ (inr (answered ret memory dev'), answers.ring_fd ∷ answers.open_ctrl ∷ []))
            × (numbers dev' ≡ map m.ioc_nr words ++ log)
            × Queries fuel junk asked dev1 (named answers number) words
            × Order code2 code asked words
            × (stop : ℕ) × (memory2 : Memory) × (dev2 : CtrlDev K) × (ublksrv_ctrl_stop_dev fuel
                  dev1
                ≡ answered stop memory2 dev2)
            × (del : ℕ) × (memory3 : Memory) × (dev3 : CtrlDev K) × (ublksrv_ctrl_del_dev fuel dev2
                ≡ answered del memory3 dev3)
            × Outcome asked stop del ret log)
  unfolding cmd_dev_del ublksrv_ctrl_init ublksrv_ctrl_deinit ublk_is_unprivileged has
  cmd_dev_del-Outcome junk answers number =
      let dev = named answers number in
      let (code2, code, asked, memory, dev1, words, coded2, coded, run, sent, queries, order) =
        get_info-privileged laws few room fuel bound junk dev refl in
      let (
        ret, memory2, dev2, log, run2, sent2, stop, memory3, dev3, stops, del, memory4, dev4,
        deletes, outcome,
      ) =
        delete_known-Outcome laws few room fuel bound junk dev run in
      let same : dev2.ctrl_fd ≡ answers.open_ctrl =
        subst (SameFd answers.open_ctrl) run2 (delete_known-SameFd fuel junk dev) in
      elim (Bool-cases (is_neg answers.open_ctrl)) [
        | inl shut ↦ inl (ground arith, ground arith)
        | inr opened ↦ elim (Bool-cases (is_neg answers.ring_init.0)) [
          | inl failed ↦ inl (ground arith, ground arith)
          | inr made ↦ inr (
            ret,
            memory2,
            dev2,
            asked,
            memory,
            dev1,
            code2,
            code,
            words,
            log,
            coded2,
            coded,
            run,
            ground (arith, run2, same),
            sent2 ∙ ap (λ (xs : List ℕ). xs ++ log) sent,
            queries,
            order,
            stop,
            memory3,
            dev3,
            stops,
            del,
            memory4,
            dev4,
            deletes,
            outcome,
          )
        ]
      ]
