-- ===== src/Queue/Process/Ending.antt =====
-- When a round ends the queue's thread.
use go_ublksrv.Base.{
  ℕ, ◌+◌, ◌^◌, ◌<◌, ◌≡◌, ◌↔◌, Bool, not, true, inl, inr, List, [], ◌∷◌, arith, length, Bool-cases,
}
use go_ublksrv.Bits.{has}
use go_ublksrv.Word.{minus, is_neg, enodev}
use go_ublksrv.Ioctl.{Ioctl}
use go_ublksrv.Uring.{Uring, Cqe}
use go_ublksrv.Host.{Host}
use go_ublksrv.Queue.Flags.{ublksrv_queue_idle}
use go_ublksrv.Queue.Types.{Queue, ok, and_then-ok}
use go_ublksrv.Queue.Cqe.{ublksrv_handle_cqe, handle_cqes, advance, ublksrv_reap_events_uring}
use go_ublksrv.Queue.Process.{
  Completion, ublksrv_queue_is_done, wait_inflight, submit_and_wait, settle, process_tail,
  ublksrv_process_io,
}

module _ {R : Type 0} ⦃m : Ioctl⦄ ⦃u : Uring R⦄ ⦃h : Host⦄ where
  handle_cqes-count :
      (cs : List Cqe) (n : ℕ) (q : Queue R) {r : ℕ} {q' : Queue R}
      → handle_cqes cs n q ≡ ok r q'
      → r ≡ n + length cs
  unfolding handle_cqes
  handle_cqes-count [] n q e = ground arith
  handle_cqes-count (c ∷ cs) n q e =
      let (_, q1, _, rest) = and_then-ok (ublksrv_handle_cqe c q) (λ _. handle_cqes cs (n + 1)) e in
      omega (arith, handle_cqes-count cs (n + 1) q1 rest)

  -- Reaping returns the number of completions that the ring showed.
  pub reap-count :
      (q : Queue R) {r : ℕ} {q' : Queue R}
      → ublksrv_reap_events_uring q ≡ ok r q'
      → r ≡ length (u.cqes q.ring)
  unfolding ublksrv_reap_events_uring
  reap-count q {r} e =
      let (n, q1, run, rest) = and_then-ok (handle_cqes (u.cqes q.ring) 0 q) advance e in
      let same : n ≡ r = ground arith in omega (arith, handle_cqes-count (u.cqes q.ring) 0 q run)

  tail-count :
      (timeout : Bool) (q : Queue R) {r : ℕ} {q' : Queue R}
      → process_tail timeout q ≡ ok r q'
      → r ≡ length (u.cqes (u.submit_and_wait timeout q.ring).1)
  unfolding submit_and_wait
  tail-count timeout q {r} e =
      let ring = (u.submit_and_wait timeout q.ring).1 in
      let ret = (u.submit_and_wait timeout q.ring).0 in
      let q0 = record q { ring = ring } in
      let (n, q1, run, rest) =
        and_then-ok (ublksrv_reap_events_uring q0) (λ n q1. ok n (settle ret n q1)) e in
      let same : n ≡ r = ground arith in omega (arith, reap-count q0 run)

  -- Where no ring shows 2 ^ 31 completions, a round that ends returns a negative number exactly when the
  -- queue was stopping with nothing left to submit.
  pub process_io-ends :
      ((r : R) → length (u.cqes r) < 2 ^ 31)
      → (during : List Completion) (q : Queue R) {r : ℕ} {q' : Queue R}
      → ublksrv_process_io during q ≡ ok r q'
      → (is_neg r ≡ true) ↔ (ublksrv_queue_is_done q ≡ true)
  unfolding ublksrv_process_io
  process_io-ends few during q {r} {q'} e = elim (Bool-cases (ublksrv_queue_is_done q)) [
    | inl done_ ↦ let same : r ≡ minus enodev = ground arith in ground arith
    | inr more ↦
        let timeout = not (has q.state ublksrv_queue_idle) in
        let (_, q1, _, rest) =
          and_then-ok (wait_inflight during q) (λ _. process_tail timeout) {b = r} {q' = q'}
            (ground arith) in
        ground (arith, tail-count timeout q1 rest, few (u.submit_and_wait timeout q1.ring).1)
  ]
