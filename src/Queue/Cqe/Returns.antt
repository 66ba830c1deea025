-- ===== src/Queue/Cqe/Returns.antt =====
-- The handlers of completions end: none waits for the mutex where the submission queue has room.
use mathlib.Core.Path.{subst, sym}
use go_ublksrv.Base.{
  ℕ, suc, ◌+◌, ◌-◌, ◌*◌, ◌^◌, ◌≤◌, ◌<◌, ◌≡◌, ◌&&◌, Bool, not, true, false, refl, some, inl, inr,
  List, [], ◌∷◌, ◌++◌, length, ◌==◌, arith, get_elem?, set, get_elem?-set_self, get_elem?-lt,
  Bool-cases, bit_or,
}
use go_ublksrv.Bits.{has, has-or}
use go_ublksrv.Word.{u32}
use go_ublksrv.Ioctl.{Ioctl, IsIoctl}
use go_ublksrv.Uring.{Uring, Cqe, HasRoom}
use go_ublksrv.Host.{Host}
use go_ublksrv.UserData.{user_data_to_tag, is_target_io}
use go_ublksrv.UserData.Laws.{packed}
use go_ublksrv.Queue.Flags.{
  ublk_io_res_abort, ublk_io_res_ok, ublk_io_res_need_get_data, ublksrv_queue_stopping,
  ublksrv_io_free,
}
use go_ublksrv.Queue.Types.{Io, Queue, ok}
use go_ublksrv.Queue.IoCmd.{
  can_issue, ublksrv_queue_io_cmd, submit_io, retire, fill_sqe, choose_cmd_op,
}
use go_ublksrv.Queue.Request.{demo_handle_io_async, with_seq, call_for}
use go_ublksrv.Queue.Cqe.{
  stop_fetching, set_flags, dispatch_res, ublksrv_handle_cqe, handle_cqes, advance,
  ublksrv_reap_events_uring,
}
use go_ublksrv.Dev.Buffers.{sizeof_io_desc}
use go_ublksrv.Queue.Ends.{Ends, Ends-eq, Ends-map, Ends-bind, Ends-Keeps}
use go_ublksrv.Queue.Invariant.Defs.{IsQueue, After}
use go_ublksrv.Queue.Invariant.Slots.{slot_at, get_elem?-some, Evolves-trans, Evolves-refl}
use go_ublksrv.Queue.Invariant.Commands.{word_exists}
use go_ublksrv.Queue.Invariant.Completions.{stop_fetching-After, Sane, AllSane, handle_cqe-Keeps}

-- The mutex is free, and `k` commands can be sent.
pub record Open {R : Type 0} ⦃u : Uring R⦄ (full : HasRoom u) (k : ℕ) (q : Queue R) : Type 0 where
  pub unlocked : q.lock ≡ false
  pub room : k ≤ full.room q.ring

wanted-can_issue : (f : ℕ) → can_issue (bit_or f 12) ≡ true
unfolding can_issue has
wanted-can_issue f = rw (has-or f 12 4, has-or f 12 11) (ground arith)

module _ {R : Type 0} ⦃m : Ioctl⦄ ⦃u : Uring R⦄ (laws : IsIoctl m) (full : HasRoom u) where
  -- A submission for a slot that needs a command takes one place.
  queue_io_cmd-Ends :
      (tag k : ℕ) (q : Queue R) {io : Io}
      → tag < 2 ^ 16
      → Open full (suc k) q
      → get_elem? q.ios tag ≡ some io
      → can_issue io.flags ≡ true
      → Ends (Open full k) (ublksrv_queue_io_cmd tag q)
  unfolding ublksrv_queue_io_cmd submit_io retire
  queue_io_cmd-Ends tag k q {io} fits can slot needs =
      let (ring, got, less) = full.take q.ring (full.room q.ring - 1) (omega (arith, can.room)) in
      let held = record q { lock = true } in
      let word = word_exists laws tag io.flags held fits in
      Ends-eq (Open full k)
        {r' = retire tag io
          (fill_sqe held io tag (choose_cmd_op io.flags) (packed tag (choose_cmd_op io.flags) 0 0))
          ring held}
        (ground (arith, word, can.unlocked))
        (record { unlocked = refl; room = omega (arith, can.room) })

module _ {R : Type 0} ⦃m : Ioctl⦄ ⦃u : Uring R⦄ ⦃h : Host⦄ (laws : IsIoctl m)
    (full : HasRoom u) where
  demo_handle-Ends :
      (tag k : ℕ) (q : Queue R)
      → IsQueue q
      → tag < q.q_depth
      → Open full (suc k) q
      → Ends (Open full k) (demo_handle_io_async tag q)
  unfolding demo_handle_io_async
  demo_handle-Ends tag k q v lt can =
      let (io, slot) = get_elem?-some q.ios tag (omega (arith, v.depth_fits)) in
      let s = slot_at q.q_depth q.ios tag v.slots slot in
      let offset = tag * sizeof_io_desc in
      let has_iod : io.io_data.iod ≡ some offset = ground arith in
      let q' = record q {
        ios = set q.ios tag (with_seq io);
        calls = q.calls ++ (call_for (q.io_cmd_buf offset) io.io_data ∷ []);
        tgt_io_inflight = u32 (q.tgt_io_inflight + 1);
      } in
      Ends-eq (Open full k) {r' = ok 0 q'} (ground arith)
        (record { unlocked = can.unlocked; room = omega (arith, can.room) })

  dispatch-Ends :
      (tag res k : ℕ) (q : Queue R)
      → IsQueue q
      → tag < q.q_depth
      → Open full (suc k) q
      → Ends (Open full k) (dispatch_res tag res q)
  unfolding dispatch_res set_flags
  dispatch-Ends tag res k q v lt can =
      let (io, slot) = get_elem?-some q.ios tag (omega (arith, v.depth_fits)) in
      let wanted = bit_or io.flags 12 in
      let q' = set_flags tag wanted io q in
      elim (Bool-cases (res == ublk_io_res_ok)) [
        | inl fetched ↦
            Ends-eq (Open full k) {r' = demo_handle_io_async tag q} (ground arith)
              (demo_handle-Ends tag k q v lt can)
        | inr other ↦ elim (Bool-cases (res == ublk_io_res_need_get_data)) [
          | inl data_wanted ↦
              Ends-eq (Open full k) {r' = ublksrv_queue_io_cmd tag q'} (ground arith) (
                queue_io_cmd-Ends laws full tag k q' (omega (arith, v.depth_fits, v.tags_fit))
                  (record { unlocked = can.unlocked; room = can.room })
                  (get_elem?-set_self q.ios tag _ (get_elem?-lt q.ios tag slot))
                  (wanted-can_issue io.flags))
          | inr rest ↦
              Ends-eq (Open full k) {r' = ok 0 (set_flags tag ublksrv_io_free io q)} (ground arith)
                (record { unlocked = can.unlocked; room = omega (arith, can.room) })
        ]
      ]

  stop_fetching-Open :
      (fetch : Bool) (tag : ℕ) (io : Io) (k : ℕ) (q : Queue R)
      → Open full k q
      → Open full k (stop_fetching fetch tag io q)
  unfolding stop_fetching
  stop_fetching-Open true tag io k q can = can
  stop_fetching-Open false tag io k q can = record { unlocked = can.unlocked; room = can.room }

  -- The handler ends, and takes at most one place of the submission queue.
  handle_cqe-Ends :
      (c : Cqe) (k : ℕ) (q : Queue R)
      → IsQueue q
      → Sane q.q_depth c
      → Open full (suc k) q
      → Ends (Open full k) (ublksrv_handle_cqe c q)
  unfolding ublksrv_handle_cqe
  handle_cqe-Ends c k q v (inl target) can =
      Ends-eq (Open full k) {r' = ok 0 q} (ground arith)
        (record { unlocked = can.unlocked; room = omega (arith, can.room) })
  handle_cqe-Ends c k q v (inr lt) can =
      let tag = user_data_to_tag c.user_data in
      let fetch = not (c.res == ublk_io_res_abort) && not (has q.state ublksrv_queue_stopping) in
      let (io, slot) = get_elem?-some q.ios tag (omega (arith, v.depth_fits)) in
      let a = stop_fetching-After fetch tag io q v (slot_at q.q_depth q.ios tag v.slots slot) in
      let q' = stop_fetching fetch tag io q in
      elim (Bool-cases (is_target_io c.user_data)) [
        | inl target ↦
            Ends-eq (Open full k) {r' = ok 0 q} (ground arith)
              (record { unlocked = can.unlocked; room = omega (arith, can.room) })
        | inr own ↦ Ends-eq (Open full k) {r' = dispatch_res tag c.res q'} (ground arith) (
            dispatch-Ends tag c.res k q' a.0 (omega (arith, a.1.same_depth))
              (stop_fetching-Open fetch tag io (suc k) q can))
      ]

  handle_cqes-Ends :
      (cs : List Cqe) (n : ℕ) (q : Queue R)
      → IsQueue q
      → AllSane q.q_depth cs
      → Open full (length cs) q
      → Ends (λ q'. Open full 0 q' × After q q') (handle_cqes cs n q)
  unfolding handle_cqes
  handle_cqes-Ends [] n q v sane can = (can, (v, Evolves-refl q))
  handle_cqes-Ends (c ∷ cs) n q v sane can =
      Ends-bind (λ q'. Open full (length cs) q' × After q q') (λ q'. Open full 0 q' × After q q')
        (ublksrv_handle_cqe c q) (λ _. handle_cqes cs (n + 1))
        (Ends-Keeps (Open full (length cs)) (After q) (ublksrv_handle_cqe c q)
          (handle_cqe-Ends c (length cs) q v sane.0 can) (handle_cqe-Keeps laws c q v sane.0))
        (λ _ q' a.
          Ends-map (λ q''. Open full 0 q'' × After q' q'') (λ q''. Open full 0 q'' × After q q'')
            (handle_cqes cs (n + 1) q') (λ q'' b. (b.0, (b.1.0, Evolves-trans a.1.1 b.1.1)))
            (handle_cqes-Ends cs (n + 1) q' a.1.0
              (subst (λ d. AllSane d cs) (sym a.1.1.same_depth) sane.1) a.0))

  -- Reaping ends where there is room for a command for each completion that the ring shows.
  pub reap-Ends :
      (q : Queue R)
      → IsQueue q
      → AllSane q.q_depth (u.cqes q.ring)
      → Open full (length (u.cqes q.ring)) q
      → Ends (λ q'. (q'.lock ≡ false) × After q q') (ublksrv_reap_events_uring q)
  unfolding ublksrv_reap_events_uring
  reap-Ends q v sane can =
      Ends-bind (λ q'. Open full 0 q' × After q q') (λ q'. (q'.lock ≡ false) × After q q')
        (handle_cqes (u.cqes q.ring) 0 q) advance (handle_cqes-Ends (u.cqes q.ring) 0 q v sane can)
        (λ n q' a. (
          a.0.unlocked,
          (
            record {
              depth_fits = a.1.0.depth_fits;
              tags_fit = a.1.0.tags_fit;
              count_fits = a.1.0.count_fits;
              slots = a.1.0.slots;
            },
            Evolves-trans a.1.1 (ground arith),
          ),
        ))
