-- ===== src/Queue/Thread/Stops.antt =====
-- A thread ends when the driver aborts its commands.
use mathlib.Core.Path.{subst, sym}
use go_ublksrv.Base.{
  ℕ, ◌+◌, ◌≤◌, ◌<◌, ◌≡◌, ◌∙◌, not, Bool, true, false, refl, ap, some, List, [], ◌∷◌, length, arith,
  Bool-cases, inl, inr, get_elem?, get_elem?-set_self, get_elem?-lt,
}
use go_ublksrv.Bits.{has, has-or, clear}
use go_ublksrv.Word.{is_neg}
use go_ublksrv.Ioctl.{Ioctl, IsIoctl}
use go_ublksrv.Uring.{Uring, HasRoom, Cqe}
use go_ublksrv.Host.{Host}
use go_ublksrv.UserData.{user_data_to_tag, is_target_io}
use go_ublksrv.Queue.Flags.{
  ublk_io_res_abort, ublksrv_queue_stopping, ublksrv_queue_idle, ublksrv_io_free,
  ublksrv_need_fetch_rq,
}
use go_ublksrv.Queue.Types.{Io, Queue, ok}
use go_ublksrv.Queue.Cqe.{
  ublksrv_handle_cqe, stop_fetching, dispatch_res, set_flags, handle_cqes,
  ublksrv_reap_events_uring,
}
use go_ublksrv.Queue.Process.{
  Completion, ublksrv_queue_is_done, submit_and_wait, settle, process_tail, ublksrv_process_io,
}
use go_ublksrv.Queue.Process.Wait.{CanFinish, wait_inflight-Finished}
use go_ublksrv.Queue.Invariant.Defs.{IsQueue, Keeps, After}
use go_ublksrv.Queue.Invariant.Slots.{get_elem?-some}
use go_ublksrv.Queue.Invariant.Completions.{handle_cqe-Keeps}
use go_ublksrv.Queue.Invariant.Rounds.{AllTags, wait_inflight-Keeps}
use go_ublksrv.Queue.Thread.{serve}

-- The driver gives a command of a slot below `depth` up.
pub record Aborts (depth : ℕ) (c : Cqe) : Type 0 where
  pub own : is_target_io c.user_data ≡ false
  pub tag : user_data_to_tag c.user_data < depth
  pub res : c.res ≡ ublk_io_res_abort

abbrev pub AllAbort : ℕ → List Cqe → Type 0
AllAbort depth [] = Unit {0}
AllAbort depth (c ∷ cs) = Aborts depth c × AllAbort depth cs

-- What a driver does that is told to stop: each submission is answered with aborts, one at least.
pub record Stopping {R : Type 0} (u : Uring R) (depth : ℕ) : Type 0 where
  pub aborts : (timeout : Bool) (r : R) → AllAbort depth (u.cqes (u.submit_and_wait timeout r).1)
  pub one : (timeout : Bool) (r : R) → 0 < length (u.cqes (u.submit_and_wait timeout r).1)
  -- A submission leaves no entry, and to pass completions by prepares none.
  pub flushed : (timeout : Bool) (r : R) → u.sq_ready (u.submit_and_wait timeout r).1 ≡ 0
  pub advanced : (n : ℕ) (r : R) → u.sq_ready (u.cq_advance n r) ≡ u.sq_ready r

-- Where the queue stops, with the same ring as before.
record Stopped {R : Type 0} (q q' : Queue R) : Type 0 where
  stopping : has q'.state ublksrv_queue_stopping ≡ true
  same_ring : q'.ring ≡ q.ring
  valid : IsQueue q'
  same_depth : q'.q_depth ≡ q.q_depth

stopping-bit : has ublksrv_queue_stopping ublksrv_queue_stopping ≡ true
unfolding has
stopping-bit = refl

module _ {R : Type 0} ⦃m : Ioctl⦄ ⦃u : Uring R⦄ ⦃h : Host⦄ (laws : IsIoctl m) where
  abort_runs :
      (c : Cqe) (q : Queue R) {io : Io}
      → Aborts q.q_depth c
      → get_elem? q.ios (user_data_to_tag c.user_data) ≡ some io
      → (q' : Queue R) × (ublksrv_handle_cqe c q ≡ ok 0 q')
        × (has q'.state ublksrv_queue_stopping ≡ true)
        × (q'.ring ≡ q.ring)
  unfolding ublksrv_handle_cqe stop_fetching dispatch_res set_flags
  abort_runs c q {io} a slot =
      let tag = user_data_to_tag c.user_data in
      let stopped = stop_fetching false tag io q in
      let io' = record io { flags = clear io.flags ublksrv_need_fetch_rq } in
      let slot' = get_elem?-set_self q.ios tag io' (get_elem?-lt q.ios tag slot) in
      (
        set_flags tag ublksrv_io_free io' stopped,
        ground (arith, a.own, a.res, slot'),
        ground (arith, has-or q.state 1 1, stopping-bit),
        refl,
      )

  abort-Stopped :
      (c : Cqe) (q : Queue R)
      → IsQueue q
      → Aborts q.q_depth c
      → (q' : Queue R) × (ublksrv_handle_cqe c q ≡ ok 0 q') × Stopped q q'
  abort-Stopped c q v a =
      let (io, slot) =
        get_elem?-some q.ios (user_data_to_tag c.user_data) (omega (arith, a.tag, v.depth_fits)) in
      let (q', run, bit, ring) = abort_runs c q a slot in
      let kept : After q q' =
        subst (Keeps (After q)) run (handle_cqe-Keeps laws c q v (inr a.tag)) in
      (
        q',
        run,
        record { stopping = bit; same_ring = ring; valid = kept.0; same_depth = kept.1.same_depth },
      )

  aborts-Stopped :
      (c : Cqe) (cs : List Cqe) (n : ℕ) (q : Queue R)
      → IsQueue q
      → AllAbort q.q_depth (c ∷ cs)
      → (r : ℕ) × (q' : Queue R) × (handle_cqes (c ∷ cs) n q ≡ ok r q') × Stopped q q'
  unfolding handle_cqes
  aborts-Stopped c [] n q v a =
      let (q1, run, s) = abort-Stopped c q v a.0 in (n + 1, q1, rw run refl, s)
  aborts-Stopped c (d ∷ cs) n q v a =
      let (q1, run, s) = abort-Stopped c q v a.0 in
      let (r, q2, run2, s2) =
        aborts-Stopped d cs (n + 1) q1 s.valid
          (subst (λ k. AllAbort k (d ∷ cs)) (sym s.same_depth) a.1) in
      (
        r,
        q2,
        rw run run2,
        record {
          stopping = s2.stopping;
          same_ring = s2.same_ring ∙ s.same_ring;
          valid = s2.valid;
          same_depth = s2.same_depth ∙ s.same_depth;
        },
      )

  -- The same of whatever list the ring shows.
  shown-Stopped :
      (cs : List Cqe) (q : Queue R)
      → IsQueue q
      → AllAbort q.q_depth cs
      → 0 < length cs
      → (r : ℕ) × (q' : Queue R) × (handle_cqes cs 0 q ≡ ok r q') × Stopped q q'
  shown-Stopped [] q v a some_ = absurd (omega arith)
  shown-Stopped (c ∷ cs) q v a some_ = aborts-Stopped c cs 0 q v a

module _ {R : Type 0} ⦃u : Uring R⦄ where
  settle-stopping :
      (ret n : ℕ) (q : Queue R)
      → has q.state ublksrv_queue_stopping ≡ true
      → (has (settle ret n q).state ublksrv_queue_stopping ≡ true)
        × ((settle ret n q).ring ≡ q.ring)
  unfolding settle
  settle-stopping ret n q h = (ground arith, ground arith)

module _ {R : Type 0} ⦃m : Ioctl⦄ ⦃u : Uring R⦄ ⦃h : Host⦄ (laws : IsIoctl m) where
  tail-done :
      (timeout : Bool) (q : Queue R)
      → IsQueue q
      → Stopping u q.q_depth
      → (r : ℕ) × (q' : Queue R) × (process_tail timeout q ≡ ok r q')
        × (ublksrv_queue_is_done q' ≡ true)
  unfolding submit_and_wait ublksrv_reap_events_uring ublksrv_queue_is_done
  tail-done timeout q v stop =
      let ret = (u.submit_and_wait timeout q.ring).0 in
      let ring = (u.submit_and_wait timeout q.ring).1 in
      let q1 = record q { ring = ring } in
      let v1 : IsQueue q1 = record {
        depth_fits = v.depth_fits;
        tags_fit = v.tags_fit;
        count_fits = v.count_fits;
        slots = v.slots;
      } in
      let (r, q2, run, s) =
        shown-Stopped laws (u.cqes ring) q1 v1 (stop.aborts timeout q.ring)
          (stop.one timeout q.ring) in
      let q3 = record q2 { ring = u.cq_advance r q2.ring } in
      let (bit, same) = settle-stopping ret r q3 s.stopping in
      let none_left : u.sq_ready (settle ret r q3).ring ≡ 0 =
        ap u.sq_ready same
        ∙ stop.advanced r q2.ring
        ∙ ap u.sq_ready s.same_ring
        ∙ stop.flushed timeout q.ring in
      (r, settle ret r q3, rw run refl, rw (bit, none_left) refl)

  done-serve :
      (during : List Completion) (rounds : List (List Completion)) (q : Queue R)
      → ublksrv_queue_is_done q ≡ true
      → serve (during ∷ rounds) q ≡ ok true q
  unfolding serve ublksrv_process_io
  done-serve during rounds q done_ = ground arith

  after_round :
      (during next : List Completion) (rounds : List (List Completion)) (q : Queue R) {r : ℕ}
      {q' : Queue R}
      → ublksrv_process_io during q ≡ ok r q'
      → ublksrv_queue_is_done q' ≡ true
      → serve (during ∷ next ∷ rounds) q ≡ ok true q'
  unfolding serve
  after_round during next rounds q {r} {q'} run done_ = elim (Bool-cases (is_neg r)) [
    | inl failed ↦ ground arith
    | inr fine ↦ ground (arith, done-serve next rounds q' done_)
  ]

  -- A thread ends once the driver gives its commands up. Where each submission is answered with
  -- completions of the queue's own commands that all carry -ENODEV, one at least, and leaves no
  -- entry prepared, the loop of a thread breaks in at most two rounds, whatever the idle state and
  -- the commands on their way: from a well-formed queue with its mutex free, no slot waiting for
  -- data and room for a commit for each io in flight, while the target completes slots that exist
  -- at least as many times as io are in flight.
  pub serve-Stops :
      (full : HasRoom u)
      → (during next : List Completion) (rounds : List (List Completion)) (q : Queue R) → IsQueue q
      → CanFinish full q
      → Stopping u q.q_depth
      → AllTags (length q.ios) during
      → q.tgt_io_inflight ≤ length during
      → (q' : Queue R) × (serve (during ∷ next ∷ rounds) q ≡ ok true q')
  serve-Stops full during next rounds q v can stop tags enough =
      elim (Bool-cases (ublksrv_queue_is_done q)) [
        | inl done_ ↦ (q, done-serve during (next ∷ rounds) q done_)
        | inr more ↦
            let timeout = not (has q.state ublksrv_queue_idle) in
            let (rest, q1, run, used, f, _, _, _) =
              wait_inflight-Finished laws full during q can tags enough in
            let a : After q q1 =
              subst (Keeps (After q)) run (wait_inflight-Keeps laws during q v tags) in
            let (r, q2, ends, done_) =
              tail-done timeout q1 a.0 (subst (Stopping u) (sym a.1.same_depth) stop) in
            let whole : ublksrv_process_io during q ≡ ok r q2 =
              unfold ublksrv_process_io in rw more (rw run ends) in
            (q2, after_round during next rounds q whole done_)
      ]
