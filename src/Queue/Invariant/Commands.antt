-- ===== src/Queue/Invariant/Commands.antt =====
-- Submissions and completions by the target keep a queue well-formed.
use go_ublksrv.Base.{
  ℕ, ◌^◌, ◌<◌, ◌≡◌, ◌||◌, Bool, true, refl, some, inl, inr, [], ◌∷◌, length, ◌==◌, arith, set,
  length-set, length-append, Bool-cases, Option-cases, bit_or,
}
use go_ublksrv.Bits.{has, has-or}
use go_ublksrv.Word.{u32, minus}
use go_ublksrv.Ioctl.{Ioctl, IsIoctl}
use go_ublksrv.Uring.{Uring}
use go_ublksrv.UserData.{build_user_data}
use go_ublksrv.UserData.Laws.{build-packed, packed}
use go_ublksrv.Queue.Types.{Io, IoSqe, Queue, ok, blocked}
use go_ublksrv.Queue.IoCmd.{
  can_issue, choose_cmd_op, encode_cmd_op, fill_sqe, retire, submit_io, ublksrv_queue_io_cmd,
  ublksrv_mark_io_done, ublksrv_complete_io,
}
use go_ublksrv.Queue.IoCmd.Cases.{retired}
use go_ublksrv.Queue.IoCmd.Commit.{nr-encode}
use go_ublksrv.Queue.Invariant.Defs.{SlotOk, IsQueue, Keeps, After}
use go_ublksrv.Queue.Invariant.Slots.{slot_at, Slots-with, get_elem?-some, Keeps-eq, Keeps-After}

-- A slot may be given other flags, as long as none is set or it is free, and another result.
pub SlotOk-flags :
    {depth i : ℕ} {io : Io} (f r : ℕ)
    → SlotOk depth i io
    → (f == 0 || has f 4) ≡ true
    → SlotOk depth i (record io { flags = f; result = r })
SlotOk-flags f r s h = ground arith

SlotOk-done :
    {depth i : ℕ} {io : Io} (res : ℕ)
    → SlotOk depth i io
    → SlotOk depth i (ublksrv_mark_io_done io res)
unfolding ublksrv_mark_io_done has
SlotOk-done {io} res s =
    SlotOk-flags (bit_or io.flags 6) (u32 res) s (ground (arith, has-or io.flags 6 4))

module _ {R : Type 0} where
  -- Only the slot at `tag` and the mutex change.
  pub After-slot :
      (q : Queue R) (tag : ℕ) (io : Io) (held : Bool)
      → IsQueue q
      → SlotOk q.q_depth tag io
      → After q (record q { ios = set q.ios tag io; lock = held })
  After-slot q tag io held v s = (
    record {
      depth_fits = omega (arith, length-set q.ios tag io);
      tags_fit = omega (arith, length-set q.ios tag io);
      count_fits = v.count_fits;
      slots = Slots-with q.q_depth q.ios tag io v.slots s;
    },
    ground (arith, length-set q.ios tag io),
  )

  pub After-lock : (q : Queue R) (held : Bool) → IsQueue q → After q (record q { lock = held })
  After-lock q held v = (ground arith, ground arith)

  pub retired-After :
      (tag : ℕ) (io : Io) (sqe : IoSqe) (ring : R) (q : Queue R)
      → IsQueue q
      → SlotOk q.q_depth tag io
      → After q (retired tag io sqe ring q)
  retired-After tag io sqe ring q v s = (
    record {
      depth_fits = omega (arith, length-set q.ios tag _);
      tags_fit = omega (arith, length-set q.ios tag _);
      count_fits = omega arith;
      slots = Slots-with q.q_depth q.ios tag _ v.slots (SlotOk-flags 0 io.result s refl);
    },
    ground (arith, length-set q.ios tag (record io { flags = 0 }), length-append q.sqes (sqe ∷ [])),
  )

module _ {R : Type 0} ⦃m : Ioctl⦄ ⦃u : Uring R⦄ (laws : IsIoctl m) where
  pub word_exists :
      (tag flags : ℕ) (q : Queue R)
      → tag < 2 ^ 16
      → build_user_data tag (m.ioc_nr (encode_cmd_op (choose_cmd_op flags) q)) 0 0
        ≡ some (packed tag (choose_cmd_op flags) 0 0)
  unfolding choose_cmd_op
  word_exists tag flags q h =
      rw (nr-encode laws (choose_cmd_op flags) q (ground arith))
        (build-packed tag (choose_cmd_op flags) 0 0 h (ground arith) (omega arith))

  submit_io-Keeps :
      (tag : ℕ) (io : Io) (q : Queue R)
      → tag < 2 ^ 16
      → IsQueue q
      → SlotOk q.q_depth tag io
      → Keeps (After q) (submit_io tag io (record q { lock = true }))
  unfolding submit_io
  submit_io-Keeps tag io q h v s = elim (Option-cases (u.get_sqe q.ring)) [
    | inl none_left ↦
        Keeps-eq (After q) {r' = ok (minus 1) (record q { lock = true })} (ground arith)
          (After-lock q true v)
    | inr (ring, got) ↦
        let sqe =
          fill_sqe q io tag (choose_cmd_op io.flags) (packed tag (choose_cmd_op io.flags) 0 0) in
        Keeps-eq (After q) {r' = retire tag io sqe ring (record q { lock = true })}
          (ground (arith, word_exists tag io.flags (record q { lock = true }) h))
          (retired-After tag io sqe ring q v s)
  ]

  -- With the tag of a slot, a submission keeps the invariant whatever it returns.
  pub queue_io_cmd-Keeps :
      (tag : ℕ) (q : Queue R)
      → IsQueue q
      → tag < length q.ios
      → Keeps (After q) (ublksrv_queue_io_cmd tag q)
  unfolding ublksrv_queue_io_cmd
  queue_io_cmd-Keeps tag q v h = elim (Bool-cases q.lock) [
    | inl held ↦ Keeps-eq (After q) {r' = blocked} (ground arith) tt
    | inr open_ ↦
        let (io, slot) = get_elem?-some q.ios tag h in
        let s = slot_at q.q_depth q.ios tag v.slots slot in
        elim (Bool-cases (can_issue io.flags)) [
          | inl yes_ ↦
              Keeps-eq (After q) {r' = submit_io tag io (record q { lock = true })} (ground arith)
                (submit_io-Keeps tag io q (omega arith) v s)
          | inr no_ ↦
              Keeps-eq (After q) {r' = ok 0 (record q { lock = true })} (ground arith)
                (After-lock q true v)
        ]
  ]

  -- So does a completion.
  pub complete_io-Keeps :
      (tag res : ℕ) (q : Queue R)
      → IsQueue q
      → tag < length q.ios
      → Keeps (After q) (ublksrv_complete_io tag res q)
  unfolding ublksrv_complete_io
  complete_io-Keeps tag res q v h =
      let (io, slot) = get_elem?-some q.ios tag h in
      let s = slot_at q.q_depth q.ios tag v.slots slot in
      let q' = record q { ios = set q.ios tag (ublksrv_mark_io_done io res) } in
      let a = After-slot q tag (ublksrv_mark_io_done io res) q.lock v (SlotOk-done res s) in
      Keeps-eq (After q) {r' = ublksrv_queue_io_cmd tag q'} (ground arith) (
        Keeps-After (ublksrv_queue_io_cmd tag q') a.1 (
          queue_io_cmd-Keeps tag q' a.0
            (omega (arith, length-set q.ios tag (ublksrv_mark_io_done io res)))))
