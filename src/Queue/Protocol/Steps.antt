-- ===== src/Queue/Protocol/Steps.antt =====
-- One event of the protocol, in the code.
use mathlib.Core.Path.{subst, sym}
use mathlib.Core.List.{map-append, append-nil}
use go_ublksrv.Base.{
  ℕ, ◌+◌, ◌-◌, ◌*◌, ◌≤◌, ◌≡◌, ◌∙◌, Bool, false, refl, some, List, [], ◌∷◌, ◌++◌, length, map,
  get_elem?, set, arith, ap, inr, length-set, get_elem?-lt,
}
use go_ublksrv.Bits.{has}
use go_ublksrv.Word.{u32}
use go_ublksrv.Ioctl.{Ioctl, IsIoctl}
use go_ublksrv.Uring.{Uring, HasRoom}
use go_ublksrv.Host.{Host}
use go_ublksrv.UserData.{user_data_to_tag, is_target_io}
use go_ublksrv.Dev.Buffers.{sizeof_io_desc}
use go_ublksrv.Queue.Flags.{ublk_io_res_ok, ublksrv_queue_stopping}
use go_ublksrv.Queue.Types.{Io, AsyncCall, Queue, ok}
use go_ublksrv.Queue.IoCmd.Commit.{complete_io-Commits}
use go_ublksrv.Queue.IoCmd.Twice.{committed}
use go_ublksrv.Queue.Request.{demo_handle_io_async, with_seq, call_for}
use go_ublksrv.Queue.Cqe.{ublksrv_handle_cqe, dispatch_res, stop_fetching}
use go_ublksrv.Queue.Process.{submit_and_wait}
use go_ublksrv.Queue.Process.Wait.{NoData, NoData-get, NoData-set, no_flags}
use go_ublksrv.Queue.Invariant.Defs.{IsQueue, Keeps, After}
use go_ublksrv.Queue.Invariant.Slots.{slot_at, get_elem?-some}
use go_ublksrv.Queue.Invariant.Commands.{complete_io-Keeps}
use go_ublksrv.Queue.Invariant.Completions.{handle_cqe-Keeps}
use go_ublksrv.Queue.Protocol.{
  Owner, driver, target, prepared, Event, handed, answered, submitted, submit_owner, perform,
  calls_of, commits_of,
}
use go_ublksrv.Queue.Protocol.Owners.{
  is_target, is_prepared, sum_of, sum_of-set, sum_of-le, submit-target, length-submit,
}

-- The queue shows these owners: the count of io in flight is the number of slots that the target
-- has, and there is room for a command for each slot that has none prepared.
pub record Shows {R : Type 0} ⦃u : Uring R⦄ (full : HasRoom u) (os : List Owner) (q : Queue R)
    : Type 0 where
  pub valid : IsQueue q
  pub depth : q.q_depth ≡ length os
  pub unlocked : q.lock ≡ false
  pub counted : q.tgt_io_inflight ≡ sum_of is_target os
  pub room : length os ≤ full.room q.ring + sum_of is_prepared os
  pub plain : NoData q.ios
  pub running : has q.state ublksrv_queue_stopping ≡ false

-- The logs after an event.
pub record Logged {R : Type 0} (e : Event) (q q' : Queue R) : Type 0 where
  pub calls : map AsyncCall.tag q'.calls ≡ map AsyncCall.tag q.calls ++ calls_of e
  pub commits : map committed q'.sqes ≡ map committed q.sqes ++ commits_of e

-- A submission leaves room for a command for every slot.
abbrev pub Empties : {R : Type 0} (u : Uring R) → HasRoom u → ℕ → Type 0
Empties {R} u full depth =
    (timeout : Bool) (r : R) → depth ≤ full.room (u.submit_and_wait timeout r).1

module _ {R : Type 0} ⦃h : Host⦄ where
  -- The queue after a handover.
  handed_queue : (tag : ℕ) → Io → Queue R → Queue R
  handed_queue tag io q = record q {
    ios = set q.ios tag (with_seq io);
    calls = q.calls ++ (call_for (q.io_cmd_buf (tag * sizeof_io_desc)) io.io_data ∷ []);
    tgt_io_inflight = u32 (q.tgt_io_inflight + 1);
  }

module _ {R : Type 0} ⦃m : Ioctl⦄ ⦃u : Uring R⦄ ⦃h : Host⦄ where
  handed_runs :
      (word : ℕ) (q : Queue R) {io : Io}
      → is_target_io word ≡ false
      → has q.state ublksrv_queue_stopping ≡ false
      → get_elem? q.ios (user_data_to_tag word) ≡ some io
      → io.io_data.iod ≡ some (user_data_to_tag word * sizeof_io_desc)
      → ublksrv_handle_cqe (record { user_data = word; res = ublk_io_res_ok }) q
        ≡ ok 0 (handed_queue (user_data_to_tag word) io q)
  unfolding ublksrv_handle_cqe dispatch_res stop_fetching demo_handle_io_async handed_queue
  handed_runs word q own running slot iod = ground arith

module _ {R : Type 0} ⦃m : Ioctl⦄ ⦃u : Uring R⦄ ⦃h : Host⦄ (laws : IsIoctl m)
    (full : HasRoom u) where
  -- The driver hands a request over.
  pub step-handed :
      (word : ℕ) (os : List Owner) (q : Queue R)
      → Shows full os q
      → is_target_io word ≡ false
      → get_elem? os (user_data_to_tag word) ≡ some driver
      → (r : ℕ) × (q' : Queue R) × (perform (handed word) q ≡ ok r q')
        × Shows full (set os (user_data_to_tag word) target) q'
        × Logged (handed word) q q'
  unfolding perform handed_queue
  step-handed word os q s own at_driver =
      let tag = user_data_to_tag word in
      let lt = get_elem?-lt os tag at_driver in
      let (io, slot) = get_elem?-some q.ios tag (omega (arith, s.valid.depth_fits, s.depth)) in
      let ok_slot = slot_at q.q_depth q.ios tag s.valid.slots slot in
      let iod : io.io_data.iod ≡ some (tag * sizeof_io_desc) = ground (arith, s.depth) in
      let run = handed_runs word q own s.running slot iod in
      let a : After q (handed_queue tag io q) = subst (Keeps (After q)) run (
        handle_cqe-Keeps laws (record { user_data = word; res = ublk_io_res_ok }) q s.valid
          (inr (omega (arith, s.depth)))) in
      let targets = sum_of-set is_target os tag target at_driver in
      let waiting = sum_of-set is_prepared os tag target at_driver in
      (
        0,
        handed_queue tag io q,
        run,
        record {
          valid = a.0;
          depth = omega (arith, s.depth, length-set os tag target);
          unlocked = s.unlocked;
          counted = omega (
            arith,
            s.counted,
            targets,
            sum_of-le os,
            s.valid.tags_fit,
            s.valid.depth_fits,
            s.depth,
          );
          room = omega (arith, s.room, waiting, length-set os tag target);
          plain = NoData-set q.ios tag (with_seq io) s.plain (NoData-get q.ios tag s.plain slot);
          running = s.running;
        },
        record {
          calls = simp (map-append, ok_slot.tag);
          commits = sym (append-nil (map committed q.sqes));
        },
      )

  -- The target answers a request.
  pub step-answered :
      (tag res : ℕ) (os : List Owner) (q : Queue R)
      → Shows full os q
      → get_elem? os tag ≡ some target
      → (r : ℕ) × (q' : Queue R) × (perform (answered tag res) q ≡ ok r q')
        × Shows full (set os tag prepared) q'
        × Logged (answered tag res) q q'
  unfolding perform
  step-answered tag res os q s at_target =
      let lt = get_elem?-lt os tag at_target in
      let targets = sum_of-set is_target os tag prepared at_target in
      let waiting = sum_of-set is_prepared os tag prepared at_target in
      let (io, slot) = get_elem?-some q.ios tag (omega (arith, s.valid.depth_fits, s.depth)) in
      let (ring, got, less) =
        full.take q.ring (full.room q.ring - 1) (omega (arith, s.room, targets, sum_of-le os)) in
      let (q', run, d) =
        complete_io-Commits laws tag res q
          (omega (arith, s.valid.depth_fits, s.valid.tags_fit, s.depth)) s.unlocked slot
          (NoData-get q.ios tag s.plain slot) got in
      let a : After q q' =
        subst (Keeps (After q)) run
          (complete_io-Keeps laws tag res q s.valid (omega (arith, s.valid.depth_fits, s.depth))) in
      let ring_room : full.room q'.ring ≡ full.room ring = ap full.room d.ring_taken in
      (
        1,
        q',
        run,
        record {
          valid = a.0;
          depth = omega (arith, s.depth, a.1.same_depth, length-set os tag prepared);
          unlocked = d.unlocked;
          counted = omega (arith, s.counted, targets, d.counted, s.valid.count_fits);
          room = omega (
            arith,
            s.room,
            waiting,
            ring_room,
            less,
            length-set os tag prepared,
            targets,
            sum_of-le os,
          );
          plain = rw d.slots (NoData-set q.ios tag _ s.plain no_flags);
          running = ap (λ (x : ℕ). has x ublksrv_queue_stopping) d.same_state ∙ s.running;
        },
        record {
          calls =
              ap (map AsyncCall.tag) d.same_calls ∙ sym (append-nil (map AsyncCall.tag q.calls));
          commits = rw d.sqes (simp (map-append, d.cmd_tag, d.result));
        },
      )

  -- The thread submits.
  pub step-submitted :
      (timeout : Bool) (os : List Owner) (q : Queue R)
      → Empties u full (length os)
      → Shows full os q
      → (r : ℕ) × (q' : Queue R) × (perform (submitted timeout) q ≡ ok r q')
        × Shows full (map submit_owner os) q'
        × Logged (submitted timeout) q q'
  unfolding perform submit_and_wait
  step-submitted timeout os q empties s = (
    (u.submit_and_wait timeout q.ring).0,
    record q { ring = (u.submit_and_wait timeout q.ring).1 },
    refl,
    record {
      valid = record {
        depth_fits = s.valid.depth_fits;
        tags_fit = s.valid.tags_fit;
        count_fits = s.valid.count_fits;
        slots = s.valid.slots;
      };
      depth = s.depth ∙ sym (length-submit os);
      unlocked = s.unlocked;
      counted = s.counted ∙ sym (submit-target os);
      room = omega (arith, empties timeout q.ring, length-submit os);
      plain = s.plain;
      running = s.running;
    },
    record {
      calls = sym (append-nil (map AsyncCall.tag q.calls));
      commits = sym (append-nil (map committed q.sqes));
    },
  )
