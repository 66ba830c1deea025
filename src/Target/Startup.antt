-- ===== src/Target/Startup.antt =====
-- The start of a device: `startupC` (c_bridge.go).
pub mod Outcome
use go_ublksrv.Base.{
  ℕ, zero, suc, ◌*◌, ◌/◌, ◌^◌, ◌||◌, ◌==◌, leb, Bool, true, false, Option, none, some, List, [],
  ◌∷◌, if◌then◌else◌,
}
use go_ublksrv.Word.{u16, is_neg}
use go_ublksrv.Ioctl.{Ioctl}
use go_ublksrv.Ctrl.Send.{CtrlRing, CtrlDev, Answer, answered, asserted, still_waiting}
use go_ublksrv.Ctrl.Add.{ublksrv_ctrl_add_dev}
use go_ublksrv.Ctrl.Params.{init_params}
use go_ublksrv.Ctrl.Delete.{CtrlAnswers, DevData, ublksrv_ctrl_init}

abbrev pub def_nr_hw_queues : ℕ
def_nr_hw_queues = 1

abbrev pub def_qd : ℕ
def_qd = 128

abbrev pub def_buf_size : ℕ
def_buf_size = 512 * 2 ^ 10

-- `n <= 0` for a Go `int`, as its 64-bit pattern.
abbrev pub or_default : (default n : ℕ) → ℕ
or_default default n = if (n == 0) || leb (2 ^ 63) n then default else n

-- The data of a new device. The number is not written, so that it is 0.
unfoldable pub start_data : (queues queue_depth : ℕ) → DevData
start_data queues queue_depth = record {
  dev_id = 0;
  max_io_buf_bytes = def_buf_size;
  nr_hw_queues = u16 (or_default def_nr_hw_queues queues);
  queue_depth = u16 (or_default def_qd queue_depth);
  flags = 0;
  ublksrv_flags = 0;
}

-- What the goroutine of `startupC` does: it sends an error or nil on `initDone`, puts the device into
-- the map, calls `ublksrv_start_daemon`; it waits for room in the channel, or in a command, for ever.
pub data StartStep (K : Type 0) : Type 0 where
  sends : (failed : Bool) → StartStep K
  registers : (id : ℕ) → StartStep K
  runs_daemon : CtrlDev K → StartStep K
  waits : StartStep K

module _ {K : Type 0} where
  -- A send on a channel that takes `room` more.
  abbrev pub send :
      (failed : Bool) (room : ℕ) → ((room : ℕ) → List (StartStep K)) → List (StartStep K)
  send failed zero then_ = waits ∷ []
  send failed (suc room) then_ = sends failed ∷ then_ room

  -- An error is sent, and the goroutine goes on.
  abbrev pub send_error : (ret room : ℕ) → ((room : ℕ) → List (StartStep K)) → List (StartStep K)
  send_error ret room then_ = if is_neg ret then send true room then_ else then_ room

  -- From the registration on.
  abbrev pub register_and_run : CtrlDev K → (room : ℕ) → List (StartStep K)
  register_and_run dev room =
      registers dev.dev_info.dev_id ∷ send false room (λ _. runs_daemon dev ∷ [])

  -- What `Start` returns: whether the first value on `initDone` is an error; `none` where it waits.
  abbrev pub start_result : List (StartStep K) → Option Bool
  start_result [] = none
  start_result (sends failed ∷ steps) = some failed
  start_result (registers id ∷ steps) = start_result steps
  start_result (runs_daemon dev ∷ steps) = start_result steps
  start_result (waits ∷ steps) = none

module _ {K : Type 0} ⦃m : Ioctl⦄ ⦃c : CtrlRing K⦄ where
  -- The goroutine. `initDone` holds one, and `startupC` receives once: it takes two.
  unfoldable pub startup : (fuel queues queue_depth size : ℕ) → CtrlAnswers K → List (StartStep K)
  unfolding start_data ublksrv_ctrl_init
  startup fuel queues queue_depth size answers =
      elim (ublksrv_ctrl_init answers (start_data queues queue_depth)) [
        | none ↦ send true 2 (λ _. [])
        | some dev ↦ elim (ublksrv_ctrl_add_dev fuel dev) [
          | asserted ↦ waits ∷ []
          | still_waiting ↦ waits ∷ []
          | answered ret memory dev1 ↦ send_error ret 2 (λ room.
              elim (init_params fuel (size / 2 ^ 9) dev1) [
                | asserted ↦ waits ∷ []
                | still_waiting ↦ waits ∷ []
                | answered ret' memory' dev2 ↦ send_error ret' room (register_and_run dev2)
              ])
        ]
      ]
