-- ===== src/Ctrl/Affinity/Asks.antt =====
-- Which queues are asked for.
use mathlib.Core.List.{append_assoc, append-nil, map-append}
use go_ublksrv.Base.{
  ℕ, zero, suc, ◌^◌, ◌<◌, ◌≡◌, ◌∙◌, ◌++◌, true, refl, sym, ap, Option, some, List, [], ◌∷◌, arith,
  map, length, Bool-cases, inl, inr,
}
use go_ublksrv.Bits.{has}
use go_ublksrv.Word.{is_neg}
use go_ublksrv.Ioctl.{Ioctl, IsIoctl}
use go_ublksrv.Dev.{DevInfo}
use go_ublksrv.Ctrl.Types.{Memory}
use go_ublksrv.Ctrl.Ops.{ublk_cmd_get_queue_affinity}
use go_ublksrv.Ctrl.Cmd.{CtrlSqe, sendable}
use go_ublksrv.Ctrl.Send.{CtrlRing, FewSignals, CtrlDev, answered, ublksrv_ctrl_cmd}
use go_ublksrv.Ctrl.Send.Ends.{ctrl_cmd-Answered}
use go_ublksrv.Ctrl.Info.Queries.{NeverFull}
use go_ublksrv.Ctrl.Affinity.{
  asked, path_len_of, affinity_cmd, ask_affinity, ublksrv_ctrl_get_affinity,
}

-- Number and inline data of an entry.
abbrev pub inline : {K : Type 0} ⦃m : Ioctl⦄ → CtrlDev K → List (ℕ × Option (ℕ × ℕ))
inline ⦃m⦄ dev = map (λ s. (m.ioc_nr (CtrlSqe.off s).0, CtrlSqe.data_path_len s)) dev.sent

-- One command for each queue from `i` on.
abbrev pub questions : DevInfo → (left i : ℕ) → List (ℕ × Option (ℕ × ℕ))
questions info zero i = []
questions info (suc left) i =
    (ublk_cmd_get_queue_affinity, some (i, path_len_of info)) ∷ questions info left (suc i)

affinity_cmd-fits :
    (info : DevInfo) (i left_over : ℕ)
    → (sendable (affinity_cmd info i left_over) ≡ true)
      × ((affinity_cmd info i left_over).len < 2 ^ 16)
unfolding affinity_cmd path_len_of has
affinity_cmd-fits info i left_over = (refl, ground arith)

module _ {K : Type 0} ⦃m : Ioctl⦄ ⦃c : CtrlRing K⦄ (laws : IsIoctl m) (few : FewSignals c)
    (room : NeverFull c) (fuel : ℕ) (bound : (k : K) → few.signals k < fuel) where
  ask-inline :
      (left_over i : ℕ) (dev : CtrlDev K)
      → (ret : ℕ) × (memory : Memory) × (dev' : CtrlDev K) × (ublksrv_ctrl_cmd fuel
            (affinity_cmd dev.dev_info i left_over)
            dev
          ≡ answered ret memory dev')
        × (dev'.dev_info ≡ dev.dev_info)
        × (inline dev'
            ≡ inline dev
              ++ ((ublk_cmd_get_queue_affinity, some (i, path_len_of dev.dev_info)) ∷ []))
  unfolding affinity_cmd has
  ask-inline left_over i dev =
      let (can, fits) = affinity_cmd-fits dev.dev_info i left_over in
      let (ret, memory, dev', run, a) =
        ctrl_cmd-Answered laws few fuel (affinity_cmd dev.dev_info i left_over) dev bound can
          fits in
      let (k, got) = room dev.ring in
      let legacy = laws.nr_of_legacy ublk_cmd_get_queue_affinity (omega arith) in
      elim a.log [
        | inl (full, _, _) ↦ absurd (ground arith)
        | inr (sqe, log, carries) ↦ (
          ret,
          memory,
          dev',
          run,
          a.same_info,
          rw log (simp (map-append, carries.number, legacy, carries.inline_data)),
        )
      ]

-- How far the loop over `left` queues from `i` on came.
pub data Came {K : Type 0} ⦃m : Ioctl⦄ (left i ret : ℕ) (blocks : List Memory)
    (dev dev' : CtrlDev K) : Type 0 where
  all :
      ret ≡ 0
      → length blocks ≡ left
      → inline dev' ≡ inline dev ++ questions dev.dev_info left i
      → Came left i ret blocks dev dev'
  failed :
      (done_ : ℕ)
      → done_ < left
      → is_neg ret ≡ true
      → inline dev' ≡ inline dev ++ questions dev.dev_info (suc done_) i
      → Came left i ret blocks dev dev'

module _ {K : Type 0} ⦃m : Ioctl⦄ where
  questions-more :
      (n i : ℕ) (dev dev1 : CtrlDev K)
      → dev1.dev_info ≡ dev.dev_info
      → inline dev1
        ≡ inline dev ++ ((ublk_cmd_get_queue_affinity, some (i, path_len_of dev.dev_info)) ∷ [])
      → inline dev1 ++ questions dev1.dev_info n (suc i)
        ≡ inline dev ++ questions dev.dev_info (suc n) i
  questions-more n i dev dev1 same log =
      ap (λ (d : DevInfo). inline dev1 ++ questions d n (suc i)) same
      ∙ ap (λ xs. xs ++ questions dev.dev_info n (suc i)) log
      ∙ append_assoc (inline dev)
          ((ublk_cmd_get_queue_affinity, some (i, path_len_of dev.dev_info)) ∷ [])
          (questions dev.dev_info n (suc i))

  Came-more :
      (left i ret : ℕ) (memory : Memory) (blocks : List Memory) (dev dev1 dev2 : CtrlDev K)
      → dev1.dev_info ≡ dev.dev_info
      → inline dev1
        ≡ inline dev ++ ((ublk_cmd_get_queue_affinity, some (i, path_len_of dev.dev_info)) ∷ [])
      → Came left (suc i) ret blocks dev1 dev2
      → Came (suc left) i ret (memory ∷ blocks) dev dev2
  Came-more left i ret memory blocks dev dev1 dev2 same log (all fine count more) =
      all fine (ap suc count) (more ∙ questions-more left i dev dev1 same log)
  Came-more left i ret memory blocks dev dev1 dev2 same log (failed done_ few bad more) =
      failed (suc done_) (omega arith) bad (more ∙ questions-more (suc done_) i dev dev1 same log)

module _ {K : Type 0} ⦃m : Ioctl⦄ ⦃c : CtrlRing K⦄ (laws : IsIoctl m) (few : FewSignals c)
    (room : NeverFull c) (fuel : ℕ) (bound : (k : K) → few.signals k < fuel) where
  ask_affinity-Came :
      (left_over left i : ℕ) (dev : CtrlDev K)
      → (ret : ℕ) × (blocks : List Memory) × (dev' : CtrlDev K) × (ask_affinity fuel left_over left
            i dev
          ≡ asked ret blocks dev')
        × (dev'.dev_info ≡ dev.dev_info)
        × Came left i ret blocks dev dev'
  unfolding ask_affinity
  ask_affinity-Came left_over zero i dev =
      (0, [], dev, refl, refl, all refl refl (sym (append-nil (inline dev))))
  ask_affinity-Came left_over (suc left) i dev =
      let (ret, memory, dev1, run, same, log) =
        ask-inline laws few room fuel bound left_over i dev in
      let (ret2, blocks, dev2, run2, same2, came) = ask_affinity-Came left_over left (suc i) dev1 in
      elim (Bool-cases (is_neg ret)) [
        | inl bad ↦ (ret, [], dev1, ground arith, same, failed 0 (omega arith) bad log)
        | inr fine ↦ (
          ret2,
          memory ∷ blocks,
          dev2,
          ground arith,
          same2 ∙ same,
          Came-more left i ret2 memory blocks dev dev1 dev2 same log came,
        )
      ]

  -- The query of the affinity ends. Where the buffer is allocated, each queue of the device is
  -- asked for once, in order, by a GET_QUEUE_AFFINITY with its number as inline data, until one is
  -- answered with an error: the result is 0 with the blocks of all queues, or that error. What is
  -- known of the device stays the same. The control ring is never full, and the fuel of each wait is
  -- above the number of its interruptions.
  pub get_affinity-Came :
      (left_over : ℕ) (dev : CtrlDev K)
      → (ret : ℕ) × (blocks : List Memory) × (dev' : CtrlDev K) × (ublksrv_ctrl_get_affinity fuel
            left_over true dev
          ≡ asked ret blocks dev')
        × (dev'.dev_info ≡ dev.dev_info)
        × Came dev.dev_info.nr_hw_queues 0 ret blocks dev dev'
  unfolding ublksrv_ctrl_get_affinity
  get_affinity-Came left_over dev = ask_affinity-Came left_over dev.dev_info.nr_hw_queues 0 dev
