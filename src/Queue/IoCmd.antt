-- ===== src/Queue/IoCmd.antt =====
-- Submission of an io command for a slot, and the completion of a request by the target.
pub mod Cases
pub mod Lock
pub mod Commit
pub mod Twice
use go_ublksrv.Base.{
  ℕ, ◌+◌, ◌-◌, ◌^◌, bit_or, Bool, true, false, not, ◌&&◌, ◌||◌, Option, none, some, List, [], ◌∷◌,
  ◌++◌, ◌==◌, if◌then◌else◌, get_elem?, set,
}
use go_ublksrv.Bits.{has}
use go_ublksrv.Word.{u16, u32, minus}
use go_ublksrv.Ioctl.{Ioctl}
use go_ublksrv.Uring.{Uring}
use go_ublksrv.UserData.{build_user_data}
use go_ublksrv.Queue.Flags.{
  ublksrv_need_fetch_rq, ublksrv_need_commit_rq_comp, ublksrv_io_free, ublksrv_need_get_data,
  ublksrv_queue_ioctl_op, ublksrv_user_copy, ublk_io_fetch_req, ublk_io_commit_and_fetch_req,
  ublk_io_need_get_data,
}
use go_ublksrv.Queue.Types.{Io, IoCmd, IoSqe, Queue, Run, ok, blocked, fault, abort, ◌>>=◌, ◌>>◌}

-- IORING_OP_URING_CMD and IOSQE_FIXED_FILE (linux/io_uring.h), and sizeof(struct ublksrv_io_cmd).
abbrev pub ioring_op_uring_cmd : ℕ
ioring_op_uring_cmd = 46

abbrev pub iosqe_fixed_file : ℕ
iosqe_fixed_file = 1

abbrev pub sizeof_io_cmd : ℕ
sizeof_io_cmd = 16

-- The two words at `off`.
abbrev pub ublksrv_set_sqe_cmd_op : ℕ → ℕ × ℕ
ublksrv_set_sqe_cmd_op cmd_op = (cmd_op, 0)

-- The first two tests of `ublksrv_queue_io_cmd`: the slot is free, and needs a command.
unfoldable pub can_issue : ℕ → Bool
can_issue flags =
    has flags ublksrv_io_free
    && has flags
        (bit_or ublksrv_need_fetch_rq (bit_or ublksrv_need_get_data ublksrv_need_commit_rq_comp))

unfoldable pub choose_cmd_op : ℕ → ℕ
choose_cmd_op flags =
    if has flags ublksrv_need_get_data
    then ublk_io_need_get_data
    else if has flags ublksrv_need_commit_rq_comp
    then ublk_io_commit_and_fetch_req
    else if has flags ublksrv_need_fetch_rq
    then ublk_io_fetch_req
    else 0

-- The target has finished the request with `res`.
unfoldable pub ublksrv_mark_io_done : Io → ℕ → Io
ublksrv_mark_io_done io res = record io {
  flags = bit_or io.flags (bit_or ublksrv_need_commit_rq_comp ublksrv_io_free);
  result = u32 res;
}

-- From `io->flags = 0` on: the slot is busy, one target io less is in flight, the thread that
-- waits for the last one is woken, and the mutex is released.
unfoldable pub retire : {R : Type 0} → (tag : ℕ) → Io → IoSqe → R → Queue R → Run R ℕ
retire tag io sqe ring q = ok 1 (record q {
  ring = ring;
  sqes = q.sqes ++ (sqe ∷ []);
  ios = set q.ios tag (record io { flags = 0 });
  tgt_io_inflight = u32 (q.tgt_io_inflight + (2 ^ 32 - 1));
  signals = if q.tgt_io_inflight == 1 then q.signals + 1 else q.signals;
  lock = false;
})

module _ {R : Type 0} ⦃m : Ioctl⦄ where
  -- The number that goes out: ioctl-encoded where the device asked for that ('u' is 117).
  unfoldable pub encode_cmd_op : ℕ → Queue R → ℕ
  encode_cmd_op cmd_op q =
      if has q.state ublksrv_queue_ioctl_op
      then m.iowr b'u' (m.ioc_nr cmd_op) sizeof_io_cmd
      else cmd_op

  unfoldable pub fill_sqe : Queue R → Io → (tag cmd_op user_data : ℕ) → IoSqe
  unfolding encode_cmd_op
  fill_sqe q io tag cmd_op user_data = record {
    fd = 0;
    opcode = ioring_op_uring_cmd;
    flags = iosqe_fixed_file;
    rw_flags = 0;
    off = ublksrv_set_sqe_cmd_op (encode_cmd_op cmd_op q);
    user_data = user_data;
    cmd = record {
      q_id = u16 q.q_id;
      tag = u16 tag;
      result = if cmd_op == ublk_io_commit_and_fetch_req then some io.result else none;
      addr = if has q.state ublksrv_user_copy then 0 else io.buf_addr;
    };
  }

module _ {R : Type 0} ⦃m : Ioctl⦄ ⦃u : Uring R⦄ where
  -- Under the mutex, with an entry of the submission queue at hand or none.
  unfoldable pub submit_io : (tag : ℕ) → Io → Queue R → Run R ℕ
  unfolding retire fill_sqe choose_cmd_op encode_cmd_op
  submit_io tag io q = elim (u.get_sqe q.ring) [
    | none ↦ ok (minus 1) q
    | some ring ↦
        let cmd_op = choose_cmd_op io.flags in
        elim (build_user_data tag (m.ioc_nr (encode_cmd_op cmd_op q)) 0 0) [
          | none ↦ abort
          | some user_data ↦ retire tag io (fill_sqe q io tag cmd_op user_data) ring q
        ]
  ]

  -- `ublksrv_queue_io_cmd(q, &q->ios[tag], tag)`. The two early returns and the one for a full
  -- submission queue leave the mutex held, as the code does.
  unfoldable pub ublksrv_queue_io_cmd : ℕ → Queue R → Run R ℕ
  unfolding submit_io can_issue
  ublksrv_queue_io_cmd tag q =
      if q.lock
      then blocked
      else let q' = record q { lock = true } in
        elim (get_elem? q.ios tag) [
          | none ↦ fault
          | some io ↦ if can_issue io.flags then submit_io tag io q' else ok 0 q'
        ]

  unfoldable pub ublksrv_complete_io : (tag res : ℕ) → Queue R → Run R ℕ
  unfolding ublksrv_mark_io_done ublksrv_queue_io_cmd
  ublksrv_complete_io tag res q = elim (get_elem? q.ios tag) [
    | none ↦ fault
    | some io ↦
        ublksrv_queue_io_cmd tag (record q { ios = set q.ios tag (ublksrv_mark_io_done io res) })
  ]
