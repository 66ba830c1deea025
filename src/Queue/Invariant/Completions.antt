-- ===== src/Queue/Invariant/Completions.antt =====
-- The handling of completions keeps a queue well-formed.
use mathlib.Core.Path.{subst, sym}
use go_ublksrv.Base.{
  ℕ, zero, suc, ◌+◌, ◌*◌, ◌<◌, ◌≡◌, ◌⊎◌, ◌||◌, ◌&&◌, Bool, not, true, false, refl, some, inl, inr,
  List, [], ◌∷◌, ◌++◌, ◌==◌, arith, set, length-set, length-append, Bool-cases, bit_or,
}
use go_ublksrv.Bits.{has, has-or, has-clear, clear}
use go_ublksrv.Word.{u32}
use go_ublksrv.Ioctl.{Ioctl, IsIoctl}
use go_ublksrv.Uring.{Uring, Cqe}
use go_ublksrv.Host.{Host}
use go_ublksrv.UserData.{user_data_to_tag, is_target_io}
use go_ublksrv.Queue.Flags.{
  ublk_io_res_abort, ublk_io_res_ok, ublk_io_res_need_get_data, ublksrv_queue_stopping,
  ublksrv_io_free,
}
use go_ublksrv.Queue.Types.{Io, Queue, ok}
use go_ublksrv.Queue.IoCmd.{ublksrv_queue_io_cmd}
use go_ublksrv.Queue.Request.{demo_handle_io_async, with_seq, call_for}
use go_ublksrv.Queue.Cqe.{
  stop_fetching, set_flags, dispatch_res, ublksrv_handle_cqe, handle_cqes, advance,
  ublksrv_reap_events_uring,
}
use go_ublksrv.Dev.Buffers.{sizeof_io_desc}
use go_ublksrv.Queue.Invariant.Defs.{SlotOk, IsQueue, Keeps, After}
use go_ublksrv.Queue.Invariant.Slots.{
  slot_at, Slots-with, get_elem?-some, Evolves-refl, Evolves-trans, Keeps-bind, Keeps-eq,
  Keeps-After,
}
use go_ublksrv.Queue.Invariant.Commands.{After-slot, queue_io_cmd-Keeps, SlotOk-flags}

-- A completion of a command that a queue of this depth has sent, or of target io.
abbrev pub Sane : ℕ → Cqe → Type 0
Sane depth c = (is_target_io c.user_data ≡ true) ⊎ (user_data_to_tag c.user_data < depth)

abbrev pub AllSane : ℕ → List Cqe → Type 0
AllSane depth [] = Unit {0}
AllSane depth (c ∷ cs) = Sane depth c × AllSane depth cs

SlotOk-with_seq : {depth i : ℕ} {io : Io} → SlotOk depth i io → SlotOk depth i (with_seq io)
SlotOk-with_seq s = ground arith

module _ {R : Type 0} ⦃h : Host⦄ where
  pub demo_handle-Keeps :
      (tag : ℕ) (q : Queue R)
      → IsQueue q
      → tag < q.q_depth
      → Keeps (After q) (demo_handle_io_async tag q)
  unfolding demo_handle_io_async
  demo_handle-Keeps tag q v lt =
      let (io, slot) = get_elem?-some q.ios tag (omega arith) in
      let s = slot_at q.q_depth q.ios tag v.slots slot in
      let offset = tag * sizeof_io_desc in
      let has_iod : io.io_data.iod ≡ some offset = ground arith in
      let q' = record q {
        ios = set q.ios tag (with_seq io);
        calls = q.calls ++ (call_for (q.io_cmd_buf offset) io.io_data ∷ []);
        tgt_io_inflight = u32 (q.tgt_io_inflight + 1);
      } in
      Keeps-eq (After q) {r' = ok 0 q'} (ground arith) (
        record {
          depth_fits = omega (arith, length-set q.ios tag (with_seq io));
          tags_fit = omega (arith, length-set q.ios tag (with_seq io));
          count_fits = omega arith;
          slots = Slots-with q.q_depth q.ios tag _ v.slots (SlotOk-with_seq s);
        },
        ground (
          arith,
          length-set q.ios tag (with_seq io),
          length-append q.calls (call_for (q.io_cmd_buf offset) io.io_data ∷ []),
        ),
      )

clear-flags : (f : ℕ) → (f == 0 || has f 4) ≡ true → (clear f 1 == 0 || has (clear f 1) 4) ≡ true
unfolding clear
clear-flags zero h = refl
clear-flags (suc f) h = ground (arith, has-clear (suc f) 1 4)

get_data-flags : (f : ℕ) → (bit_or f 12 == 0 || has (bit_or f 12) 4) ≡ true
unfolding has
get_data-flags f = ground (arith, has-or f 12 4)

free-flags : (ublksrv_io_free == 0 || has ublksrv_io_free 4) ≡ true
unfolding has
free-flags = refl

module _ {R : Type 0} where
  stop-stopping :
      (q : Queue R) → has (bit_or q.state ublksrv_queue_stopping) ublksrv_queue_stopping ≡ true
  unfolding has
  stop-stopping q = ground (arith, has-or q.state 1 1)

  pub stop_fetching-After :
      (fetch : Bool) (tag : ℕ) (io : Io) (q : Queue R)
      → IsQueue q
      → SlotOk q.q_depth tag io
      → After q (stop_fetching fetch tag io q)
  unfolding stop_fetching
  stop_fetching-After true tag io q v s = (v, Evolves-refl q)
  stop_fetching-After false tag io q v s =
      let io' = record io { flags = clear io.flags 1 } in
      let a =
        After-slot q tag io' q.lock v
          (SlotOk-flags (clear io.flags 1) io.result s (clear-flags io.flags s.flags)) in
      (
        record {
          depth_fits = a.0.depth_fits;
          tags_fit = a.0.tags_fit;
          count_fits = v.count_fits;
          slots = a.0.slots;
        },
        ground (arith, a.1, stop-stopping q),
      )

  set_flags-After :
      (tag flags : ℕ) (io : Io) (q : Queue R)
      → IsQueue q
      → SlotOk q.q_depth tag io
      → (flags == 0 || has flags 4) ≡ true
      → After q (set_flags tag flags io q)
  unfolding set_flags
  set_flags-After tag flags io q v s f =
      After-slot q tag (record io { flags = flags }) q.lock v (SlotOk-flags flags io.result s f)

module _ {R : Type 0} ⦃m : Ioctl⦄ ⦃u : Uring R⦄ ⦃h : Host⦄ (laws : IsIoctl m) where
  dispatch-Keeps :
      (tag res : ℕ) (q : Queue R)
      → IsQueue q
      → tag < q.q_depth
      → Keeps (After q) (dispatch_res tag res q)
  unfolding dispatch_res
  dispatch-Keeps tag res q v lt =
      let (io, slot) = get_elem?-some q.ios tag (omega arith) in
      let s = slot_at q.q_depth q.ios tag v.slots slot in
      let wanted = bit_or io.flags 12 in
      let q' = set_flags tag wanted io q in
      elim (Bool-cases (res == ublk_io_res_ok)) [
        | inl fetched ↦
            Keeps-eq (After q) {r' = demo_handle_io_async tag q} (ground arith)
              (demo_handle-Keeps tag q v lt)
        | inr other ↦ elim (Bool-cases (res == ublk_io_res_need_get_data)) [
          | inl data_wanted ↦
              let a = set_flags-After tag wanted io q v s (get_data-flags io.flags) in
              Keeps-eq (After q) {r' = ublksrv_queue_io_cmd tag q'} (ground arith) (
                Keeps-After (ublksrv_queue_io_cmd tag q') a.1 (
                  queue_io_cmd-Keeps laws tag q' a.0
                    (omega (arith, length-set q.ios tag (record io { flags = wanted })))))
          | inr rest ↦
              Keeps-eq (After q) {r' = ok 0 (set_flags tag ublksrv_io_free io q)} (ground arith)
                (set_flags-After tag ublksrv_io_free io q v s (free-flags))
        ]
      ]

  -- The handler of a completion keeps a well-formed queue so on each of its branches, with what
  -- `Evolves` says, or waits for ever at the mutex; it neither reads outside the slots nor fails the
  -- assertion on `user_data`. The completion is of target io, or of a command with a tag below the
  -- queue's depth.
  pub handle_cqe-Keeps :
      (c : Cqe) (q : Queue R)
      → IsQueue q
      → Sane q.q_depth c
      → Keeps (After q) (ublksrv_handle_cqe c q)
  unfolding ublksrv_handle_cqe
  handle_cqe-Keeps c q v (inl target) =
      Keeps-eq (After q) {r' = ok 0 q} (ground arith) (v, Evolves-refl q)
  handle_cqe-Keeps c q v (inr lt) =
      let tag = user_data_to_tag c.user_data in
      let fetch = not (c.res == ublk_io_res_abort) && not (has q.state ublksrv_queue_stopping) in
      let (io, slot) = get_elem?-some q.ios tag (omega arith) in
      let s = slot_at q.q_depth q.ios tag v.slots slot in
      let a = stop_fetching-After fetch tag io q v s in
      let q' = stop_fetching fetch tag io q in
      elim (Bool-cases (is_target_io c.user_data)) [
        | inl target ↦ Keeps-eq (After q) {r' = ok 0 q} (ground arith) (v, Evolves-refl q)
        | inr own ↦ Keeps-eq (After q) {r' = dispatch_res tag c.res q'} (ground arith) (
            Keeps-After (dispatch_res tag c.res q') a.1
              (dispatch-Keeps tag c.res q' a.0 (omega (arith, a.1.same_depth))))
      ]

  handle_cqes-Keeps :
      (cs : List Cqe) (n : ℕ) (q : Queue R)
      → IsQueue q
      → AllSane q.q_depth cs
      → Keeps (After q) (handle_cqes cs n q)
  unfolding handle_cqes
  handle_cqes-Keeps [] n q v sane = (v, Evolves-refl q)
  handle_cqes-Keeps (c ∷ cs) n q v sane =
      Keeps-bind (After q) (After q) (ublksrv_handle_cqe c q) (λ _. handle_cqes cs (n + 1))
        (handle_cqe-Keeps c q v sane.0)
        (λ _ q' a. Keeps-After (handle_cqes cs (n + 1) q') a.1 (
          handle_cqes-Keeps cs (n + 1) q' a.0
            (subst (λ d. AllSane d cs) (sym a.1.same_depth) sane.1)))

  -- Reaping all the completions that the ring shows keeps the invariant.
  pub reap-Keeps :
      (q : Queue R)
      → IsQueue q
      → AllSane q.q_depth (u.cqes q.ring)
      → Keeps (After q) (ublksrv_reap_events_uring q)
  unfolding ublksrv_reap_events_uring
  reap-Keeps q v sane =
      Keeps-bind (After q) (After q) (handle_cqes (u.cqes q.ring) 0 q) advance
        (handle_cqes-Keeps (u.cqes q.ring) 0 q v sane)
        (λ n q' a.
          let q'' = record q' { ring = u.cq_advance n q'.ring } in
          (
            record {
              depth_fits = a.0.depth_fits;
              tags_fit = a.0.tags_fit;
              count_fits = a.0.count_fits;
              slots = a.0.slots;
            },
            Evolves-trans a.1 (ground arith),
          ))
