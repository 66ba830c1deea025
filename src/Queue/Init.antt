-- ===== src/Queue/Init.antt =====
-- `ublksrv_queue_init`: the slots, the ring, and the first commands.
pub mod Fetch
pub mod Ready
use go_ublksrv.Base.{
  ℕ, zero, suc, ◌+◌, ◌*◌, ◌^◌, bit_or, Bool, true, false, not, Option, none, some, List, [], ◌∷◌,
  ltb, ◌==◌, if◌then◌else◌,
}
use go_ublksrv.Bits.{has}
use go_ublksrv.Word.{u32, int_lt, is_neg}
use go_ublksrv.Ioctl.{Ioctl}
use go_ublksrv.Uring.{Uring}
use go_ublksrv.Dev.{Dev, ublk_f_cmd_ioctl_encode, ublk_f_user_copy}
use go_ublksrv.Dev.Depths.{ublksrv_calculate_depths}
use go_ublksrv.Dev.Buffers.{round_up64, ublksrv_get_iod}
use go_ublksrv.Queue.Flags.{
  ublksrv_need_fetch_rq, ublksrv_io_free, ublksrv_queue_ioctl_op, ublksrv_user_copy,
}
use go_ublksrv.Queue.Types.{IoDesc, Io, Queue, Run, ok, blocked, fault, abort, and_then}
use go_ublksrv.Queue.IoCmd.{ublksrv_queue_io_cmd}

-- What the system answers to the calls of one initialisation: the mapped descriptors, `none` for
-- MAP_FAILED; the buffer of each slot, `none` where `posix_memalign` fails; what
-- `malloc` leaves in the words of each slot that the code does not write; the result of
-- `io_uring_queue_init_params` at a ring depth and a completion depth, with the ring; the result of
-- `io_uring_register_files`.
pub record Answers (R : Type 0) : Type 0 where
  pub map_cmd_buf : Option (ℕ → IoDesc)
  pub io_buf : ℕ → Option ℕ
  pub left_over : ℕ → ℕ
  pub ring_init : (ring_depth cq_depth : ℕ) → ℕ × R
  pub register_files : ℕ

-- `round_up(tgt.io_data_size, sizeof(unsigned long))`
abbrev pub io_data_size : Dev → ℕ
io_data_size dev = u32 (round_up64 dev.tgt.io_data_size 8)

-- The slot at `i` over what `malloc` left in it, with its buffer, or none behind the first `depth`.
unfoldable pub init_io : (left_over depth data_size i buf_addr : ℕ) → Io
unfolding ublksrv_get_iod
init_io left_over depth data_size i buf_addr = record {
  buf_addr = buf_addr;
  flags = bit_or ublksrv_need_fetch_rq ublksrv_io_free;
  result = u32 left_over;
  io_data = record {
    tag = i;
    iod = if ltb i depth then some (ublksrv_get_iod i) else none;
    private_data = record { size = data_size; seq = u32 left_over };
  };
}

-- The two tests that follow `posix_memalign`: its result, and the pointer.
abbrev pub allocated : Option ℕ → Option ℕ
allocated buf = elim buf [ none ↦ none | some addr ↦ if addr == 0 then none else some addr ]

module _ (left_over : ℕ → ℕ) (buf : ℕ → Option ℕ) (depth data_size : ℕ) where
  -- The loop over the slots from `i` on; `none` is a failed allocation.
  unfoldable pub init_ios : (left i : ℕ) → Option (List Io)
  unfolding init_io
  init_ios zero i = some []
  init_ios (suc left) i =
      let rest = init_ios left (suc i) in
      elim (if ltb i depth then allocated (buf i) else some 0) [
        | none ↦ none
        | some addr ↦ elim rest [
          | none ↦ none
          | some ios ↦ some (init_io (left_over i) depth data_size i addr ∷ ios)
        ]
      ]

unfoldable pub initial_state : Dev → ℕ
initial_state dev =
    let ioctl : ℕ =
      if has dev.dev_info.flags ublk_f_cmd_ioctl_encode then ublksrv_queue_ioctl_op else 0 in
    if has dev.dev_info.flags ublk_f_user_copy then bit_or ioctl ublksrv_user_copy else ioctl

module _ {R : Type 0} where
  -- The queue as it is when the first commands are submitted. `raw` is the block that `malloc`
  -- returned: the mutex, the count of io in flight and the eventfd are still what stood there.
  unfoldable pub filled_queue : Dev → (q_id : ℕ) → (ℕ → IoDesc) → List Io → R → Queue R → Queue R
  unfolding initial_state
  filled_queue dev q_id descs ios ring raw = record raw {
    q_id = q_id;
    q_depth = dev.dev_info.queue_depth;
    max_io_buf_bytes = dev.dev_info.max_io_buf_bytes;
    io_cmd_buf = descs;
    state = initial_state dev;
    ring = ring;
    ios = ios;
  }

  -- The atomic and the mutexes are initialised behind the submissions.
  abbrev pub finish_init : ℕ → Queue R → Run R ℕ
  finish_init _ q = ok 0 (record q { tgt_io_inflight = 0; lock = false })

module _ {R : Type 0} ⦃m : Ioctl⦄ ⦃u : Uring R⦄ where
  -- `ublksrv_submit_fetch_commands`, which looks at no result.
  unfoldable pub submit_fetch : (left i : ℕ) → Queue R → Run R ℕ
  unfolding ublksrv_queue_io_cmd
  submit_fetch zero i q = ok i q
  submit_fetch (suc left) i q = and_then (ublksrv_queue_io_cmd i q) (λ _. submit_fetch left (suc i))

  -- `none` is the NULL of a failure. A negative count of slots makes no round of their loop.
  unfoldable pub ublksrv_queue_init :
      Answers R → Dev → (q_id : ℕ) → (raw : Queue R) → Option (Run R ℕ)
  unfolding ublksrv_calculate_depths init_ios filled_queue submit_fetch
  ublksrv_queue_init answers dev q_id raw =
      let depth = dev.dev_info.queue_depth in
      let d = ublksrv_calculate_depths dev in
      let (ret, ring) = answers.ring_init d.ring_depth d.cq_depth in
      if int_lt (u32 (depth * 3)) d.nr_ios then none else elim answers.map_cmd_buf [
        | none ↦ none
        | some descs ↦
            elim (init_ios answers.left_over answers.io_buf depth (io_data_size dev)
              (if is_neg d.nr_ios then 0 else d.nr_ios) 0) [
                | none ↦ none
                | some ios ↦
                    if is_neg ret
                    then none
                    else if not (answers.register_files == 0)
                    then none
                    else some (
                        and_then (submit_fetch depth 0 (filled_queue dev q_id descs ios ring raw))
                          finish_init)
              ]
      ]
