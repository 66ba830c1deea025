-- ===== src/Ctrl/Affinity.antt =====
-- The CPUs of each queue: asked from the driver into one buffer, and read from there.
pub mod Layout
pub mod Asks
use go_ublksrv.Base.{
  ℕ, zero, suc, ◌+◌, ◌*◌, Bool, true, false, not, Option, none, some, List, [], ◌∷◌, ◌==◌, set,
  get_elem?, if◌then◌else◌,
}
use go_ublksrv.Word.{u32, minus, is_neg, enomem}
use go_ublksrv.Ioctl.{Ioctl}
use go_ublksrv.Dev.{DevInfo, ublk_is_unprivileged}
use go_ublksrv.Ctrl.Types.{Memory, cpu_set, path_cpu_set}
use go_ublksrv.Ctrl.Ops.{ublk_cmd_get_queue_affinity}
use go_ublksrv.Ctrl.Cmd.{CtrlCmdData}
use go_ublksrv.Ctrl.Send.{
  CtrlRing, CtrlDev, Answer, answered, asserted, still_waiting, ublksrv_ctrl_cmd,
}

-- sizeof(cpu_set_t), and UBLKC_PATH_MAX.
abbrev pub sizeof_cpu_set : ℕ
sizeof_cpu_set = 128

abbrev pub ublkc_path_max : ℕ
ublkc_path_max = 32

unfoldable pub path_len_of : DevInfo → ℕ
path_len_of info = if ublk_is_unprivileged info then ublkc_path_max else 0

-- The size of the buffer for all queues.
unfoldable pub affinity_len : DevInfo → ℕ
unfolding path_len_of
affinity_len info = (sizeof_cpu_set + path_len_of info) * info.nr_hw_queues

-- Where the command of queue `i` writes: the offset of its block.
unfoldable pub block_at : DevInfo → (i : ℕ) → ℕ
unfolding path_len_of
block_at info i = i * (sizeof_cpu_set + path_len_of info)

-- `ublksrv_get_queue_affinity`: the offset of the set that is read for queue `qid`.
unfoldable pub ublksrv_get_queue_affinity : DevInfo → (qid : ℕ) → ℕ
ublksrv_get_queue_affinity info qid =
    if ublk_is_unprivileged info
    then qid * sizeof_cpu_set + ublkc_path_max
    else qid * sizeof_cpu_set

-- What `sched_setaffinity` is given for the thread of a queue: the offset and the size of its set.
unfoldable pub ublksrv_set_sched_affinity : DevInfo → (q_id : ℕ) → ℕ × ℕ
unfolding ublksrv_get_queue_affinity
ublksrv_set_sched_affinity info q_id = (ublksrv_get_queue_affinity info q_id, sizeof_cpu_set)

-- The command for queue `i`; `left_over` is what `malloc` left where the set will stand.
unfoldable pub affinity_cmd : DevInfo → (i left_over : ℕ) → CtrlCmdData
unfolding block_at path_len_of
affinity_cmd info i left_over = record {
  cmd_op = ublk_cmd_get_queue_affinity;
  flags = 3;
  data0 = i;
  dev_path_len = path_len_of info;
  addr =
      if path_len_of info == 0
      then cpu_set (block_at info i) left_over
      else path_cpu_set (block_at info i) info.dev_id left_over;
  len = sizeof_cpu_set + path_len_of info;
}

-- What the loop comes to: a result, with the memory of each queue's command in order; or a failed
-- assertion, or the fuel of a wait at an end.
pub data Asked (K : Type 0) : Type 0 where
  asked : (ret : ℕ) → List Memory → CtrlDev K → Asked K
  stuck : Asked K

module _ {K : Type 0} ⦃m : Ioctl⦄ ⦃c : CtrlRing K⦄ where
  -- The loop from queue `i` on. Where a command fails its result is returned, and the buffer freed.
  unfoldable pub ask_affinity : (fuel left_over left i : ℕ) → CtrlDev K → Asked K
  unfolding affinity_cmd
  ask_affinity fuel left_over zero i dev = asked 0 [] dev
  ask_affinity fuel left_over (suc left) i dev =
      elim (ublksrv_ctrl_cmd fuel (affinity_cmd dev.dev_info i left_over) dev) [
        | asserted ↦ stuck
        | still_waiting ↦ stuck
        | answered ret memory dev' ↦
            let rest = ask_affinity fuel left_over left (suc i) dev' in
            if is_neg ret then asked ret [] dev' else elim rest [
              | stuck ↦ stuck
              | asked ret' blocks dev'' ↦ asked ret' (memory ∷ blocks) dev''
            ]
      ]

  -- `allocates` is the answer of `malloc`. The blocks of a result that is no error are those behind
  -- `queues_cpuset`.
  unfoldable pub ublksrv_ctrl_get_affinity :
      (fuel left_over : ℕ) (allocates : Bool) → CtrlDev K → Asked K
  unfolding ask_affinity
  ublksrv_ctrl_get_affinity fuel left_over allocates dev =
      if allocates
      then ask_affinity fuel left_over dev.dev_info.nr_hw_queues 0 dev
      else asked (minus enomem) [] dev
