-- ===== src/Ctrl/Cmd.antt =====
-- A control command and the submission entry that carries it.
use go_ublksrv.Base.{
  ℕ, ◌^◌, ◌<◌, ◌≡◌, Bool, true, not, ◌&&◌, ◌||◌, refl, Option, none, some, arith, if◌then◌else◌,
  Bool-cases, inl, inr,
}
use go_ublksrv.Bits.{has}
use go_ublksrv.Word.{u16}
use go_ublksrv.Ioctl.{Ioctl, IsIoctl}
use go_ublksrv.Dev.{DevInfo, ublk_f_cmd_ioctl_encode}
use go_ublksrv.Queue.IoCmd.{ioring_op_uring_cmd, ublksrv_set_sqe_cmd_op}
use go_ublksrv.Ctrl.Types.{Memory}
use go_ublksrv.Ctrl.Ops.{reads_only, writes, legacy_op_to_ioctl, ioc_nr-legacy_op_to_ioctl}

abbrev pub ctrl_cmd_has_data : ℕ
ctrl_cmd_has_data = 1

abbrev pub ctrl_cmd_has_buf : ℕ
ctrl_cmd_has_buf = 2

abbrev pub ctrl_cmd_no_trans : ℕ
ctrl_cmd_no_trans = 4

-- `struct ublksrv_ctrl_cmd_data`.
pub record CtrlCmdData : Type 0 where
  pub cmd_op : ℕ
  pub flags : ℕ
  pub data0 : ℕ
  pub dev_path_len : ℕ
  pub addr : Memory
  pub len : ℕ

-- The fields of the submission entry that are written, with its `struct ublksrv_ctrl_cmd`; `none` is
-- what the entry held before. `user_data` is the address of the command in the entry.
pub record CtrlSqe : Type 0 where
  pub fd : ℕ
  pub opcode : ℕ
  pub ioprio : ℕ
  pub off : ℕ × ℕ
  pub dev_id : ℕ
  pub queue_id : ℕ
  pub addr_len : Option (Memory × ℕ)
  pub data_path_len : Option (ℕ × ℕ)

-- The number that goes out; `none` is a failed assertion.
unfoldable pub translate : ⦃m : Ioctl⦄ → DevInfo → CtrlCmdData → Option ℕ
translate info cd =
    if not (has cd.flags ctrl_cmd_no_trans) && has info.flags ublk_f_cmd_ioctl_encode
    then legacy_op_to_ioctl cd.cmd_op
    else some cd.cmd_op

unfoldable pub carry : (ctrl_fd : ℕ) → DevInfo → CtrlCmdData → (cmd_op : ℕ) → CtrlSqe
carry ctrl_fd info cd cmd_op = record {
  fd = ctrl_fd;
  opcode = ioring_op_uring_cmd;
  ioprio = 0;
  off = ublksrv_set_sqe_cmd_op cmd_op;
  dev_id = info.dev_id;
  queue_id = u16 0xffff;
  addr_len = if has cd.flags ctrl_cmd_has_buf then some (cd.addr, u16 cd.len) else none;
  data_path_len = if has cd.flags ctrl_cmd_has_data then some (cd.data0, cd.dev_path_len) else none;
}

module _ ⦃m : Ioctl⦄ where
  unfoldable pub ublksrv_ctrl_init_cmd : (ctrl_fd : ℕ) → DevInfo → CtrlCmdData → Option CtrlSqe
  unfolding translate carry
  ublksrv_ctrl_init_cmd ctrl_fd info cd = elim (translate info cd) [
    | none ↦ none
    | some cmd_op ↦ some (carry ctrl_fd info cd cmd_op)
  ]

-- The entry says to the driver what the command says.
pub record Carries ⦃m : Ioctl⦄ (info : DevInfo) (cd : CtrlCmdData) (sqe : CtrlSqe) : Type 0 where
  pub number : m.ioc_nr sqe.off.0 ≡ m.ioc_nr cd.cmd_op
  pub high_word : sqe.off.1 ≡ 0
  pub device : sqe.dev_id ≡ info.dev_id
  pub no_queue : sqe.queue_id ≡ 0xffff
  pub buffer :
      sqe.addr_len ≡ (if has cd.flags ctrl_cmd_has_buf then some (cd.addr, cd.len) else none)
  pub inline_data :
      sqe.data_path_len
      ≡ (if has cd.flags ctrl_cmd_has_data then some (cd.data0, cd.dev_path_len) else none)

-- The command needs no translation, or the table has it.
abbrev pub sendable : CtrlCmdData → Bool
sendable cd = has cd.flags ctrl_cmd_no_trans || (reads_only cd.cmd_op || writes cd.cmd_op)

module _ ⦃m : Ioctl⦄ (laws : IsIoctl m) where
  pub translate-nr :
      (info : DevInfo) (cd : CtrlCmdData)
      → sendable cd ≡ true
      → (op : ℕ) × (translate info cd ≡ some op) × (m.ioc_nr op ≡ m.ioc_nr cd.cmd_op)
  unfolding translate
  translate-nr info cd known = elim (Bool-cases (has cd.flags ctrl_cmd_no_trans)) [
    | inl as_is ↦ (cd.cmd_op, ground arith, refl)
    | inr legacy ↦
        let (code, e, back) = ioc_nr-legacy_op_to_ioctl laws cd.cmd_op (ground (arith, known)) in
        let own = laws.nr_of_legacy cd.cmd_op (ground (arith, known)) in
        elim (Bool-cases (has info.flags ublk_f_cmd_ioctl_encode)) [
          | inl yes_ ↦ (code, ground arith, ground arith)
          | inr no_ ↦ (cd.cmd_op, ground arith, refl)
        ]
  ]

  -- For a command of the table, or one that is not to be translated, with a buffer below 2 ^ 16
  -- bytes no assertion fails, and the entry carries the command: its number, whichever encoding the
  -- device has, the device's id, no queue, and the buffer and the inline data exactly where the
  -- flags ask for them.
  pub ctrl_init_cmd-Carries :
      (ctrl_fd : ℕ) (info : DevInfo) (cd : CtrlCmdData)
      → sendable cd ≡ true
      → cd.len < 2 ^ 16
      → (sqe : CtrlSqe) × (ublksrv_ctrl_init_cmd ctrl_fd info cd ≡ some sqe)
        × (sqe.fd ≡ ctrl_fd)
        × Carries info cd sqe
  unfolding ublksrv_ctrl_init_cmd carry
  ctrl_init_cmd-Carries ctrl_fd info cd known fits =
      let (op, e, back) = translate-nr info cd known in
      (
        carry ctrl_fd info cd op,
        ground arith,
        refl,
        record {
          number = back;
          high_word = refl;
          device = refl;
          no_queue = refl;
          buffer = ground arith;
          inline_data = refl;
        },
      )
