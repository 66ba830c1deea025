-- ===== src/Queue/Invariant/Rounds.antt =====
-- Whole rounds of a queue's thread keep a queue well-formed.
use mathlib.Core.Path.{subst, sym}
use go_ublksrv.Base.{ℕ, ◌<◌, Bool, not, inl, inr, List, [], ◌∷◌, length, arith, Bool-cases}
use go_ublksrv.Bits.{has, has-or, has-clear}
use go_ublksrv.Word.{minus, is_pos, enodev}
use go_ublksrv.Ioctl.{Ioctl, IsIoctl}
use go_ublksrv.Uring.{Uring}
use go_ublksrv.Host.{Host}
use go_ublksrv.Queue.Flags.{ublksrv_queue_idle}
use go_ublksrv.Queue.Types.{Queue, ok, blocked, and_then, ◌>>=◌}
use go_ublksrv.Queue.IoCmd.{ublksrv_complete_io}
use go_ublksrv.Queue.Cqe.{ublksrv_reap_events_uring}
use go_ublksrv.Queue.Process.{
  Completion, ublksrv_queue_is_done, wait_inflight, settle, submit_and_wait, process_tail,
  ublksrv_process_io,
}
use go_ublksrv.Queue.Invariant.Defs.{IsQueue, Keeps, After}
use go_ublksrv.Queue.Invariant.Slots.{
  Evolves-refl, Evolves-trans, Keeps-bind, Keeps-eq, Keeps-After,
}
use go_ublksrv.Queue.Invariant.Commands.{complete_io-Keeps}
use go_ublksrv.Queue.Invariant.Completions.{AllSane, reap-Keeps}

-- Completions of slots that exist.
abbrev pub AllTags : ℕ → List Completion → Type 0
AllTags n [] = Unit {0}
AllTags n (c ∷ cs) = (c.tag < n) × AllTags n cs

module _ {R : Type 0} ⦃m : Ioctl⦄ ⦃u : Uring R⦄ where
  pub wait_inflight-Keeps :
      IsIoctl m
      → (cs : List Completion) (q : Queue R) → IsQueue q
      → AllTags (length q.ios) cs
      → Keeps (After q) (wait_inflight cs q)
  unfolding wait_inflight
  wait_inflight-Keeps laws [] q v tags = elim (Bool-cases (is_pos q.tgt_io_inflight)) [
    | inl busy ↦ Keeps-eq (After q) {r' = blocked} (ground arith) tt
    | inr quiet ↦ Keeps-eq (After q) {r' = ok [] q} (ground arith) (v, Evolves-refl q)
  ]
  wait_inflight-Keeps laws (c ∷ cs) q v tags = elim (Bool-cases (is_pos q.tgt_io_inflight)) [
    | inl busy ↦
        Keeps-eq (After q)
          {r' = and_then (ublksrv_complete_io c.tag c.res q) (λ _. wait_inflight cs)} (ground arith)
          (Keeps-bind (After q) (After q) (ublksrv_complete_io c.tag c.res q)
            (λ _. wait_inflight cs) (complete_io-Keeps laws c.tag c.res q v tags.0)
            (λ _ q' a. Keeps-After (wait_inflight cs q') a.1 (
              wait_inflight-Keeps laws cs q' a.0
                (subst (λ n. AllTags n cs) (sym a.1.same_slots) tags.1))))
    | inr quiet ↦ Keeps-eq (After q) {r' = ok (c ∷ cs) q} (ground arith) (v, Evolves-refl q)
  ]

module _ {R : Type 0} ⦃u : Uring R⦄ where
  pub settle-After : (ret reapped : ℕ) (q : Queue R) → IsQueue q → After q (settle ret reapped q)
  unfolding settle
  settle-After ret reapped q v =
      (ground arith, ground (arith, has-or q.state 2 1, has-clear q.state 2 1))

-- What the driver shows of a queue of this depth: completions of its own commands.
abbrev pub ShowsOwn : {R : Type 0} → Uring R → ℕ → Type 0
ShowsOwn {R} u depth = (r : R) → AllSane depth (u.cqes r)

module _ {R : Type 0} ⦃m : Ioctl⦄ ⦃u : Uring R⦄ ⦃h : Host⦄ (laws : IsIoctl m) where
  submit-After :
      (timeout : Bool) (q : Queue R) → IsQueue q → Keeps (After q) (submit_and_wait timeout q)
  unfolding submit_and_wait
  submit-After timeout q v = (ground arith, ground arith)

  reap_settle-Keeps :
      (ret : ℕ) (q : Queue R)
      → IsQueue q
      → ShowsOwn u q.q_depth
      → Keeps (After q) (and_then (ublksrv_reap_events_uring q) (λ n q'. ok n (settle ret n q')))
  reap_settle-Keeps ret q v own =
      Keeps-bind (After q) (After q) (ublksrv_reap_events_uring q) (λ n q'. ok n (settle ret n q'))
        (reap-Keeps laws q v (own q.ring))
        (λ n q' a. let b = settle-After ret n q' a.0 in (b.0, Evolves-trans a.1 b.1))

  tail-Keeps :
      (timeout : Bool) (q : Queue R)
      → IsQueue q
      → ShowsOwn u q.q_depth
      → Keeps (After q) (process_tail timeout q)
  tail-Keeps timeout q v own =
      Keeps-bind (After q) (After q) (submit_and_wait timeout q)
        (λ ret. ublksrv_reap_events_uring >>= (λ n q'. ok n (settle ret n q')))
        (submit-After timeout q v)
        (λ ret q' a.
          Keeps-After (and_then (ublksrv_reap_events_uring q') (λ n q''. ok n (settle ret n q'')))
            a.1 (reap_settle-Keeps ret q' a.0 (subst (ShowsOwn u) (sym a.1.same_depth) own)))

  -- A round of the queue's thread, with any completions by the target while it waits: from a
  -- well-formed queue it ends in one, or waits for ever, and neither reads outside the slots nor
  -- fails the assertion on `user_data`. The depth, the id and the number of slots stay, a stopping
  -- queue stays stopping, and the account of the io in flight holds: the calls of `onRequestAsync`
  -- count up and the submissions count down, modulo 2 ^ 32. The driver shows completions of the
  -- queue's own commands only, and the target completes slots that exist.
  pub process_io-Keeps :
      (during : List Completion) (q : Queue R)
      → IsQueue q
      → ShowsOwn u q.q_depth
      → AllTags (length q.ios) during
      → Keeps (After q) (ublksrv_process_io during q)
  unfolding ublksrv_process_io
  process_io-Keeps during q v own tags = elim (Bool-cases (ublksrv_queue_is_done q)) [
    | inl done_ ↦ Keeps-eq (After q) {r' = ok (minus enodev) q} (ground arith) (v, Evolves-refl q)
    | inr more ↦
        let timeout = not (has q.state ublksrv_queue_idle) in
        Keeps-eq (After q) {r' = and_then (wait_inflight during q) (λ _. process_tail timeout)}
          (ground arith)
          (Keeps-bind (After q) (After q) (wait_inflight during q) (λ _. process_tail timeout)
            (wait_inflight-Keeps laws during q v tags)
            (λ _ q' a.
              Keeps-After (process_tail timeout q') a.1
                (tail-Keeps timeout q' a.0 (subst (ShowsOwn u) (sym a.1.same_depth) own))))
  ]
