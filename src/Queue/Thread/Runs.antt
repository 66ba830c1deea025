-- ===== src/Queue/Thread/Runs.antt =====
-- A thread keeps its queue well-formed, from the initialisation on.
use mathlib.Core.Path.{subst, sym}
use go_ublksrv.Base.{
  ℕ, ◌+◌, ◌-◌, ◌^◌, ◌≤◌, ◌<◌, ◌≡◌, Bool, true, false, refl, some, List, [], ◌∷◌, length, arith,
  if◌then◌else◌, Bool-cases, Option-cases, inl, inr,
}
use go_ublksrv.Word.{is_neg}
use go_ublksrv.Ioctl.{Ioctl, IsIoctl}
use go_ublksrv.Uring.{Uring, HasRoom}
use go_ublksrv.Host.{Host}
use go_ublksrv.Dev.{Dev}
use go_ublksrv.Queue.Types.{Queue, Run, ok, and_then}
use go_ublksrv.Queue.Process.{Completion, ublksrv_process_io}
use go_ublksrv.Queue.Init.{Answers, ublksrv_queue_init}
use go_ublksrv.Queue.Init.Ready.{IsReady, queue_init-IsReady}
use go_ublksrv.Queue.Invariant.Defs.{IsQueue, Keeps, After}
use go_ublksrv.Queue.Invariant.Slots.{Evolves-refl, Keeps-bind, Keeps-eq, Keeps-After}
use go_ublksrv.Queue.Invariant.Rounds.{AllTags, ShowsOwn, process_io-Keeps}
use go_ublksrv.Queue.Thread.{serve, demo_null_io_handler_fn}

-- The completions of each round are of slots that exist.
abbrev pub AllRounds : ℕ → List (List Completion) → Type 0
AllRounds n [] = Unit {0}
AllRounds n (during ∷ rounds) = AllTags n during × AllRounds n rounds

module _ {R : Type 0} ⦃m : Ioctl⦄ ⦃u : Uring R⦄ ⦃h : Host⦄ (laws : IsIoctl m) where
  pub serve-Keeps :
      (rounds : List (List Completion)) (q : Queue R)
      → IsQueue q
      → ShowsOwn u q.q_depth
      → AllRounds (length q.ios) rounds
      → Keeps (After q) (serve rounds q)
  unfolding serve
  serve-Keeps [] q v own tags = (v, Evolves-refl q)
  serve-Keeps (during ∷ rounds) q v own tags =
      Keeps-bind (After q) (After q) (ublksrv_process_io during q)
        (λ r q'. if is_neg r then ok true q' else serve rounds q')
        (process_io-Keeps laws during q v own tags.0)
        (λ r q' a. elim (Bool-cases (is_neg r)) [
          | inl ended ↦ Keeps-eq (After q) {r' = ok true q'} (ground arith) a
          | inr more ↦ Keeps-eq (After q) {r' = serve rounds q'} (ground arith) (
              Keeps-After (serve rounds q') a.1 (
                serve-Keeps rounds q' a.0 (subst (ShowsOwn u) (sym a.1.same_depth) own)
                  (subst (λ n. AllRounds n rounds) (sym a.1.same_slots) tags.1)))
        ])

AllTags-le : (n k : ℕ) (cs : List Completion) → n ≤ k → AllTags n cs → AllTags k cs
AllTags-le n k [] h a = tt
AllTags-le n k (c ∷ cs) h a = (omega (arith, a.0), AllTags-le n k cs h a.1)

AllRounds-le : (n k : ℕ) (rs : List (List Completion)) → n ≤ k → AllRounds n rs → AllRounds k rs
AllRounds-le n k [] h a = tt
AllRounds-le n k (r ∷ rs) h a = (AllTags-le n k r h a.0, AllRounds-le n k rs h a.1)

module _ {R : Type 0} ⦃m : Ioctl⦄ ⦃u : Uring R⦄ ⦃h : Host⦄ (laws : IsIoctl m)
    (full : HasRoom u) where
  -- A whole thread. Where the initialisation does not return NULL it leaves a queue that is ready, and
  -- from there, for any number of rounds and any completions by the target's threads, the thread
  -- neither reads outside the slots nor fails an assertion, and whenever it goes on or ends its queue
  -- is well-formed, of the same depth, and the account of the io in flight holds (`Evolves`). The
  -- conditions of the initialisation hold; the driver shows completions of the queue's own commands
  -- only, and the target completes tags of the driver's slots.
  pub handler_fn-Keeps :
      (answers : Answers R) (dev : Dev) (q_id : ℕ) (raw : Queue R) (rounds : List (List Completion))
      {run : Run R Bool}
      → demo_null_io_handler_fn answers dev q_id raw rounds ≡ some run
      → dev.dev_info.queue_depth + dev.tgt.extra_ios ≤ 2 ^ 16
      → dev.dev_info.queue_depth < 2 ^ 16
      → dev.tgt.tgt_ring_depth < 2 ^ 31 - 1
      → ((depth cq_depth : ℕ)
          → is_neg (answers.ring_init depth cq_depth).0 ≡ false
          → depth ≤ full.room (answers.ring_init depth cq_depth).1)
      → raw.lock ≡ false
      → raw.tgt_io_inflight < 2 ^ 32
      → ShowsOwn u dev.dev_info.queue_depth
      → AllRounds dev.dev_info.queue_depth rounds
      → (q0 : Queue R) × IsReady dev q_id raw q0 × Keeps (After q0) run
  unfolding demo_null_io_handler_fn
  handler_fn-Keeps answers dev q_id raw rounds {run} e slots depth target room unlocked count own
        tags =
      elim (Option-cases (ublksrv_queue_init answers dev q_id raw)) [
        | inl failed ↦ absurd (ground arith)
        | inr (init, made) ↦
            let (q0, ends, ready) =
              queue_init-IsReady laws full answers dev q_id raw made slots depth target room
                unlocked count in
            let start : run ≡ and_then init (λ _. serve rounds) = ground arith in
            let whole : run ≡ serve rounds q0 = rw start (rw ends refl) in
            (
              q0,
              ready,
              Keeps-eq (After q0) whole (
                  serve-Keeps laws rounds q0 ready.valid (subst (ShowsOwn u) (sym ready.depth) own)
                    (AllRounds-le dev.dev_info.queue_depth (length q0.ios) rounds
                      (omega (arith, ready.depth, ready.valid.depth_fits)) tags)),
            )
      ]
