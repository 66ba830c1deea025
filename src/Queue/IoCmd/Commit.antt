-- ===== src/Queue/IoCmd/Commit.antt =====
-- What `ublksrv_complete_io` sends to the driver.
use go_ublksrv.Base.{
  ℕ, ◌+◌, ◌-◌, ◌^◌, ◌<◌, ◌≡◌, refl, true, false, some, [], ◌∷◌, ◌++◌, ◌==◌, if◌then◌else◌,
  get_elem?, set, arith, get_elem?-set_self, set-set, get_elem?-lt,
}
use go_ublksrv.Word.{u16, u32}
use go_ublksrv.Bits.{has, has-or}
use go_ublksrv.Ioctl.{Ioctl, IsIoctl}
use go_ublksrv.Uring.{Uring}
use go_ublksrv.UserData.{build_user_data, user_data_to_tag, user_data_to_op, is_target_io}
use go_ublksrv.UserData.Laws.{read-build, build-packed, packed}
use go_ublksrv.Queue.Flags.{ublksrv_need_get_data, ublk_io_commit_and_fetch_req}
use go_ublksrv.Queue.Types.{Io, IoSqe, Queue, ok}
use go_ublksrv.Queue.IoCmd.{
  can_issue, choose_cmd_op, encode_cmd_op, fill_sqe, ublksrv_mark_io_done, ublksrv_complete_io,
}
use go_ublksrv.Queue.IoCmd.Cases.{retired}

can_issue-done : (io : Io) (res : ℕ) → can_issue (ublksrv_mark_io_done io res).flags ≡ true
unfolding can_issue ublksrv_mark_io_done has
can_issue-done io res = rw (has-or io.flags 6 4, has-or io.flags 6 11) (ground arith)

choose-done :
    (io : Io) (res : ℕ)
    → has io.flags ublksrv_need_get_data ≡ false
    → choose_cmd_op (ublksrv_mark_io_done io res).flags ≡ ublk_io_commit_and_fetch_req
unfolding choose_cmd_op ublksrv_mark_io_done has
choose-done io res h = ground (arith, has-or io.flags 6 8, has-or io.flags 6 2)

module _ {R : Type 0} ⦃m : Ioctl⦄ (laws : IsIoctl m) where
  -- The number of a command is the same in both encodings.
  pub nr-encode : (op : ℕ) (q : Queue R) → op < 256 → m.ioc_nr (encode_cmd_op op q) ≡ op
  unfolding encode_cmd_op
  nr-encode op q h = ground (arith, laws.nr_of_legacy op h, laws.nr_of_iowr b'u' (m.ioc_nr op) 16)

-- The entry that commits `res` for `tag`, and the queue that has it.
pub record Commits {R : Type 0} ⦃m : Ioctl⦄ (tag res : ℕ) (q : Queue R) (io : Io) (ring : R)
    (q' : Queue R) : Type 0 where
  pub sqe : IoSqe
  pub sqes : q'.sqes ≡ q.sqes ++ (sqe ∷ [])
  pub op : sqe.off ≡ (encode_cmd_op ublk_io_commit_and_fetch_req q, 0)
  pub cmd_tag : sqe.cmd.tag ≡ tag
  pub cmd_q_id : sqe.cmd.q_id ≡ u16 q.q_id
  pub result : sqe.cmd.result ≡ some (u32 res)
  pub tag_back : user_data_to_tag sqe.user_data ≡ tag
  pub op_back : user_data_to_op sqe.user_data ≡ ublk_io_commit_and_fetch_req
  pub not_target : is_target_io sqe.user_data ≡ false
  pub slots : q'.ios ≡ set q.ios tag (record io { flags = 0; result = u32 res })
  pub unlocked : q'.lock ≡ false
  pub same_state : q'.state ≡ q.state
  pub same_calls : q'.calls ≡ q.calls
  pub ring_taken : q'.ring ≡ ring
  pub counted : q'.tgt_io_inflight ≡ u32 (q.tgt_io_inflight + (2 ^ 32 - 1))
  pub woken : q'.signals ≡ (if q.tgt_io_inflight == 1 then q.signals + 1 else q.signals)

module _ {R : Type 0} ⦃m : Ioctl⦄ ⦃u : Uring R⦄ (laws : IsIoctl m) where
  -- Where the mutex is free, the slot exists and waits for no data, and the submission queue has an
  -- entry, completing a request returns 1 and sends one commit: it carries the slot's tag, the
  -- queue's id and the result, its `user_data` reads back as the tag and the commit command, the
  -- slot becomes busy with the other slots untouched, the mutex is free again, and one io less is in
  -- flight, with a signal if it was the last.
  pub complete_io-Commits :
      (tag res : ℕ) (q : Queue R) {io : Io} {ring : R}
      → tag < 2 ^ 16
      → q.lock ≡ false
      → get_elem? q.ios tag ≡ some io
      → has io.flags ublksrv_need_get_data ≡ false
      → u.get_sqe q.ring ≡ some ring
      → (q' : Queue R) × (ublksrv_complete_io tag res q ≡ ok 1 q') × Commits tag res q io ring q'
  unfolding ublksrv_complete_io
  complete_io-Commits tag res q {io} {ring} fits unlocked slot plain got = (
    retired tag io' sqe ring q0,
    ground (
      arith,
      built,
      can_issue-done io res,
      choose-done io res plain,
      nr-encode laws ublk_io_commit_and_fetch_req q0 (omega arith),
      get_elem?-set_self q.ios tag io' (get_elem?-lt q.ios tag slot),
    ),
    record {
      sqe = sqe;
      sqes = refl;
      op = refl;
      cmd_tag = omega arith;
      cmd_q_id = refl;
      result = refl;
      tag_back = back.0;
      op_back = back.1;
      not_target = back.2;
      slots = set-set q.ios tag _ _;
      unlocked = refl;
      same_state = refl;
      same_calls = refl;
      ring_taken = refl;
      counted = refl;
      woken = refl;
    },
  )
    where
      io' : Io
      io' = ublksrv_mark_io_done io res

      q0 : Queue R
      q0 = record q { ios = set q.ios tag io' }

      word : ℕ
      word = packed tag ublk_io_commit_and_fetch_req 0 0

      sqe : IoSqe
      sqe = fill_sqe q0 io' tag ublk_io_commit_and_fetch_req word

      built : build_user_data tag ublk_io_commit_and_fetch_req 0 0 ≡ some word
      built = build-packed tag ublk_io_commit_and_fetch_req 0 0 fits (omega arith) (omega arith)

      back :
          (user_data_to_tag word ≡ tag)
          × (user_data_to_op word ≡ ublk_io_commit_and_fetch_req)
          × (is_target_io word ≡ false)
      back = read-build tag ublk_io_commit_and_fetch_req 0 0 built
