-- ===== src/Queue/Private/Overruns.antt =====
-- The blocks of a device that the daemon makes are too small.
use mathlib.Core.Path.{subst}
use go_ublksrv.Base.{
  ℕ, set, get_elem?-set_self, get_elem?-lt, zero, suc, ◌≡◌, ◌∙◌, refl, sym, ap, Option, some, List,
  [], ◌∷◌, get_elem?, arith, Bool, ltb, if◌then◌else◌, Bool-cases, Option-cases, inl, inr, ◌==◌,
}
use go_ublksrv.Word.{is_neg, u32}
use go_ublksrv.Ioctl.{Ioctl}
use go_ublksrv.Uring.{Uring}
use go_ublksrv.Host.{Host}
use go_ublksrv.Dev.{DevInfo, Dev}
use go_ublksrv.Dev.Buffers.{round_up64}
use go_ublksrv.Daemon.PidFile.{FileLog, ublksrv_create_pid_file}
use go_ublksrv.Daemon.Setup.{SetupAnswers, opened_dev, ublksrv_dev_init}
use go_ublksrv.Queue.Types.{Io, Queue, Run, ok, and_then-ok}
use go_ublksrv.Queue.Request.{with_seq, demo_handle_io_async}
use go_ublksrv.Queue.Init.{
  Answers, allocated, io_data_size, init_io, init_ios, filled_queue, finish_init, submit_fetch,
  ublksrv_queue_init,
}
use go_ublksrv.Queue.Init.Ready.{slot_count, ring_of, queue_init-Passed}
use go_ublksrv.Queue.IoCmd.{ublksrv_queue_io_cmd}
use go_ublksrv.Queue.Protocol.{Event, perform_all}
use go_ublksrv.Queue.Private.{
  room_of, AllHave, AllHave-get, queue_io_cmd-AllHave, perform_all-AllHave,
}

module _ (left_over : ℕ → ℕ) (buf : ℕ → Option ℕ) (depth data_size : ℕ) where
  init_ios-AllHave :
      (left i : ℕ) {ios : List Io}
      → init_ios left_over buf depth data_size left i ≡ some ios
      → AllHave data_size ios
  unfolding init_ios init_io
  init_ios-AllHave zero i {ios} e =
      let here : ios ≡ [] = ground arith in subst (AllHave data_size) (sym here) tt
  init_ios-AllHave (suc left) i {ios} e =
      elim (Option-cases (if ltb i depth then allocated (buf i) else some 0)) [
        | inl bad ↦ absurd (ground arith)
        | inr (addr, got) ↦
            elim (Option-cases (init_ios left_over buf depth data_size left (suc i))) [
              | inl bad ↦ absurd (ground arith)
              | inr (rest, more) ↦
                  let here : ios ≡ init_io (left_over i) depth data_size i addr ∷ rest =
                    ground arith in
                  subst (AllHave data_size) (sym here) (refl, init_ios-AllHave left (suc i) more)
            ]
      ]

-- No code gives the target's data a size.
dev_init-size :
    (info : DevInfo) (answers : SetupAnswers) (run_dir : Bool) (left_over : ℕ) (log : FileLog)
    {dev : Dev}
    → (ublksrv_dev_init info answers run_dir left_over log).0 ≡ some dev
    → io_data_size dev ≡ 0
unfolding ublksrv_dev_init opened_dev round_up64
dev_init-size info answers run_dir left_over log {dev} e =
    let none_set : dev.tgt.io_data_size ≡ 0 = elim (Bool-cases answers.allocates) [
      | inr no_memory ↦ absurd (ground arith)
      | inl memory ↦ elim (Bool-cases (is_neg answers.opens_dev)) [
        | inl shut ↦ absurd (ground arith)
        | inr opened ↦
            elim (Bool-cases
              ((ublksrv_create_pid_file run_dir answers.files left_over 0 log).ret == 0)) [
                | inl wrote ↦ ground arith
                | inr failed ↦ absurd (ground arith)
              ]
      ]
    ] in
    ap (λ n. u32 (round_up64 n 8)) none_set

module _ {R : Type 0} ⦃m : Ioctl⦄ ⦃u : Uring R⦄ where
  submit_fetch-AllHave :
      (size left i : ℕ) (q : Queue R) {r : ℕ} {q' : Queue R}
      → AllHave size q.ios
      → submit_fetch left i q ≡ ok r q'
      → AllHave size q'.ios
  unfolding submit_fetch
  submit_fetch-AllHave size zero i q {q' = q'} a e =
      let same : q'.ios ≡ q.ios = ground arith in subst (AllHave size) (sym same) a
  submit_fetch-AllHave size (suc left) i q a e =
      let (n1, q1, run, rest) =
        and_then-ok (ublksrv_queue_io_cmd i q) (λ _. submit_fetch left (suc i)) e in
      submit_fetch-AllHave size left (suc i) q1 (queue_io_cmd-AllHave size i q a run) rest

  queue_init-AllHave :
      (answers : Answers R) (dev : Dev) (q_id : ℕ) (raw : Queue R) {run : Run R ℕ} {n : ℕ}
      {q : Queue R}
      → ublksrv_queue_init answers dev q_id raw ≡ some run
      → run ≡ ok n q
      → AllHave (io_data_size dev) q.ios
  unfolding filled_queue
  queue_init-AllHave answers dev q_id raw {q = q} e ran =
      let size = io_data_size dev in
      let depth = dev.dev_info.queue_depth in
      let p = queue_init-Passed answers dev q_id raw e in
      let first = filled_queue dev q_id p.descs p.ios (ring_of answers dev q_id raw) raw in
      let made =
        init_ios-AllHave answers.left_over answers.io_buf depth size (slot_count dev) 0 p.made in
      let (n1, q1, run, rest) =
        and_then-ok (submit_fetch depth 0 first) finish_init (sym p.runs ∙ ran) in
      let same : q.ios ≡ q1.ios = ground arith in
      subst (AllHave size) (sym same) (submit_fetch-AllHave size depth 0 first made run)

-- What a handover leaves of its slot.
handover-slot :
    {R : Type 0} ⦃h : Host⦄ (i : ℕ) (q : Queue R) {r : ℕ} {q' : Queue R} {io : Io}
    → get_elem? q.ios i ≡ some io
    → demo_handle_io_async i q ≡ ok r q'
    → (io' : Io) × (get_elem? q'.ios i ≡ some io')
      × (io'.io_data.private_data.seq ≡ u32 io.io_data.tag)
      × (room_of io' ≡ room_of io)
unfolding demo_handle_io_async
handover-slot i q {q' = q'} {io = io} slot e = elim (Option-cases io.io_data.iod) [
  | inl null ↦ absurd (ground arith)
  | inr (offset, at) ↦
      let same : q'.ios ≡ set q.ios i (with_seq io) = ground arith in
      (
        with_seq io,
        ap (λ (ios : List Io). get_elem? ios i) same
            ∙ get_elem?-set_self q.ios i (with_seq io) (get_elem?-lt q.ios i slot),
        refl,
        refl,
      )
]

-- The write of `seq` is outside its block. For a device that `ublksrv_dev_init` makes, and a queue
-- of it that was initialised, after any history of completions, answers and submissions that runs to
-- its end: the block behind the `private_data` of every slot has no bytes, and a handover of the slot
-- that returns has all the same stored the slot's tag as `seq` in it.
pub private_data-Overruns :
    {R : Type 0} ⦃m : Ioctl⦄ ⦃u : Uring R⦄ ⦃h : Host⦄ (info : DevInfo) (setup : SetupAnswers)
    (run_dir : Bool) (left_over : ℕ) (log : FileLog) (answers : Answers R) (q_id : ℕ)
    (raw : Queue R) (es : List Event) (n : ℕ) (i : ℕ) {dev : Dev} {run : Run R ℕ} {n0 r r' : ℕ}
    {q q' q'' : Queue R} {io : Io}
    → (ublksrv_dev_init info setup run_dir left_over log).0 ≡ some dev
    → ublksrv_queue_init answers dev q_id raw ≡ some run
    → run ≡ ok n0 q
    → perform_all es n q ≡ ok r q'
    → get_elem? q'.ios i ≡ some io
    → demo_handle_io_async i q' ≡ ok r' q''
    → (io' : Io) × (get_elem? q''.ios i ≡ some io')
      × (io'.io_data.private_data.seq ≡ u32 io.io_data.tag)
      × (room_of io ≡ 0)
      × (room_of io' ≡ 0)
private_data-Overruns info setup run_dir left_over log answers q_id raw es n i {dev} {q = q}
      {q' = q'} made init ran history slot handover =
    let sized = queue_init-AllHave answers dev q_id raw init ran in
    let still = perform_all-AllHave (io_data_size dev) es n q sized history in
    let empty =
      AllHave-get (io_data_size dev) q'.ios i still slot
      ∙ dev_init-size info setup run_dir left_over log made in
    let (io', after, stored, same) = handover-slot i q' slot handover in
    (io', after, stored, empty, same ∙ empty)
