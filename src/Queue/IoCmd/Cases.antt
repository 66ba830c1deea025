-- ===== src/Queue/IoCmd/Cases.antt =====
-- The ways in which `ublksrv_queue_io_cmd` returns.
use go_ublksrv.Base.{
  ℕ, ◌+◌, ◌-◌, ◌^◌, ◌≡◌, inl, inr, true, false, none, some, [], ◌∷◌, ◌++◌, ◌==◌, if◌then◌else◌,
  get_elem?, set, arith, Bool-cases, Option-cases,
}
use go_ublksrv.Word.{u32, minus}
use go_ublksrv.Ioctl.{Ioctl}
use go_ublksrv.Uring.{Uring}
use go_ublksrv.UserData.{build_user_data}
use go_ublksrv.Queue.Types.{Io, IoSqe, Queue, ok}
use go_ublksrv.Queue.IoCmd.{
  can_issue, choose_cmd_op, encode_cmd_op, fill_sqe, submit_io, ublksrv_queue_io_cmd,
}

-- The queue after the slot's command went out.
abbrev pub retired : {R : Type 0} → (tag : ℕ) → Io → IoSqe → R → Queue R → Queue R
retired tag io sqe ring q = record q {
  ring = ring;
  sqes = q.sqes ++ (sqe ∷ []);
  ios = set q.ios tag (record io { flags = 0 });
  tgt_io_inflight = u32 (q.tgt_io_inflight + (2 ^ 32 - 1));
  signals = if q.tgt_io_inflight == 1 then q.signals + 1 else q.signals;
  lock = false;
}

module _ {R : Type 0} ⦃m : Ioctl⦄ ⦃u : Uring R⦄ where
  -- Nothing to do, no entry for it, or sent.
  pub data Sending (tag : ℕ) (q : Queue R) (io : Io) (r : ℕ) (q' : Queue R) : Type 0 where
    idle :
        can_issue io.flags ≡ false → r ≡ 0 → q' ≡ record q { lock = true } → Sending tag q io r q'
    full :
        can_issue io.flags ≡ true
        → u.get_sqe q.ring ≡ none
        → r ≡ minus 1
        → q' ≡ record q { lock = true }
        → Sending tag q io r q'
    sent :
        (ring : R) (user_data : ℕ)
        → can_issue io.flags ≡ true
        → u.get_sqe q.ring ≡ some ring
        → build_user_data tag (m.ioc_nr (encode_cmd_op (choose_cmd_op io.flags) q)) 0 0
          ≡ some user_data
        → r ≡ 1
        → q' ≡ retired tag io (fill_sqe q io tag (choose_cmd_op io.flags) user_data) ring q
        → Sending tag q io r q'

  pub record Returned (tag : ℕ) (q : Queue R) (r : ℕ) (q' : Queue R) : Type 0 where
    pub was_free : q.lock ≡ false
    pub io : Io
    pub slot : get_elem? q.ios tag ≡ some io
    pub way : Sending tag q io r q'

  submit_io-Sending :
      (tag : ℕ) (io : Io) (q : Queue R) {r : ℕ} {q' : Queue R}
      → can_issue io.flags ≡ true
      → submit_io tag io (record q { lock = true }) ≡ ok r q'
      → Sending tag q io r q'
  unfolding submit_io encode_cmd_op fill_sqe
  submit_io-Sending tag io q c e = elim (Option-cases (u.get_sqe q.ring)) [
    | inl none_left ↦ full c none_left (ground arith) (ground arith)
    | inr (ring, got) ↦
        elim (Option-cases
          (build_user_data tag (m.ioc_nr (encode_cmd_op (choose_cmd_op io.flags) q)) 0 0)) [
            | inl bad ↦ absurd (ground arith)
            | inr (user_data, built) ↦ sent ring user_data c got built (ground arith) (ground arith)
          ]
  ]

  pub queue_io_cmd-Returned :
      (tag : ℕ) (q : Queue R) {r : ℕ} {q' : Queue R}
      → ublksrv_queue_io_cmd tag q ≡ ok r q'
      → Returned tag q r q'
  unfolding ublksrv_queue_io_cmd submit_io encode_cmd_op fill_sqe
  queue_io_cmd-Returned tag q e = elim (Option-cases (get_elem? q.ios tag)) [
    | inl outside ↦ absurd (ground arith)
    | inr (io, slot) ↦
        let unlocked : q.lock ≡ false = ground arith in
        elim (Bool-cases (can_issue io.flags)) [
          | inl c ↦ record {
            was_free = unlocked;
            io = io;
            slot = slot;
            way = submit_io-Sending tag io q c (ground arith);
          }
          | inr c ↦ record {
            was_free = unlocked;
            io = io;
            slot = slot;
            way = idle c (ground arith) (ground arith);
          }
        ]
  ]
