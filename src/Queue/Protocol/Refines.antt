-- ===== src/Queue/Protocol/Refines.antt =====
-- The code follows the protocol, event by event.
use mathlib.Core.List.{append_assoc, append-nil}
use go_ublksrv.Base.{
  ℕ, ◌≡◌, ◌∙◌, refl, sym, ap, some, inl, inr, List, [], ◌∷◌, ◌++◌, length, map, arith, Bool-cases,
  Option-cases, length-set,
}
use go_ublksrv.Ioctl.{Ioctl, IsIoctl}
use go_ublksrv.Uring.{Uring, HasRoom}
use go_ublksrv.Host.{Host}
use go_ublksrv.UserData.{user_data_to_tag, is_target_io}
use go_ublksrv.Queue.Types.{AsyncCall, Queue, ok}
use go_ublksrv.Queue.IoCmd.Twice.{committed}
use go_ublksrv.Queue.Protocol.{
  Owner, driver, target, prepared, Event, handed, answered, submitted, submit_owner, allow,
  allow_all, perform, perform_all, calls_of, commits_of, all_calls, all_commits,
}
use go_ublksrv.Queue.Protocol.Owners.{length-submit, pass_on-some}
use go_ublksrv.Queue.Protocol.Steps.{
  Shows, Logged, Empties, step-handed, step-answered, step-submitted,
}

-- The logs after a history.
pub record AllLogged {R : Type 0} (es : List Event) (q q' : Queue R) : Type 0 where
  pub calls : map AsyncCall.tag q'.calls ≡ map AsyncCall.tag q.calls ++ all_calls es
  pub commits : map committed q'.sqes ≡ map committed q.sqes ++ all_commits es

length-allow :
    (e : Event) (os : List Owner) {next : List Owner}
    → allow e os ≡ some next
    → length next ≡ length os
unfolding allow
length-allow (handed word) os p = elim (Bool-cases (is_target_io word)) [
  | inl other ↦ absurd (ground arith)
  | inr own ↦
      let (_, e) = pass_on-some (user_data_to_tag word) driver target os (ground arith) in
      ap length e ∙ length-set os (user_data_to_tag word) target
]
length-allow (answered tag res) os p =
    let (_, e) = pass_on-some tag target prepared os p in ap length e ∙ length-set os tag prepared
length-allow (submitted timeout) os p = ground (arith, length-submit os)

module _ {R : Type 0} ⦃m : Ioctl⦄ ⦃u : Uring R⦄ ⦃h : Host⦄ (laws : IsIoctl m)
    (full : HasRoom u) where
  abbrev Performs : Event → List Owner → Queue R → Type 0
  Performs e next q =
      (r : ℕ) × (q' : Queue R) × (perform e q ≡ ok r q') × Shows full next q' × Logged e q q'

  step-Refines :
      (e : Event) (os : List Owner) (q : Queue R) {next : List Owner}
      → Empties u full (length os)
      → Shows full os q
      → allow e os ≡ some next
      → Performs e next q
  unfolding allow
  step-Refines (handed word) os q {next} empties s p = elim (Bool-cases (is_target_io word)) [
    | inl other ↦ absurd (ground arith)
    | inr own ↦
        let (at, e) =
          pass_on-some (user_data_to_tag word) driver target os {next = next} (ground arith) in
        rw e (step-handed laws full word os q s own at)
  ]
  step-Refines (answered tag res) os q empties s p =
      let (at, e) = pass_on-some tag target prepared os p in
      rw e (step-answered laws full tag res os q s at)
  step-Refines (submitted timeout) os q {next} empties s p =
      let e : next ≡ map submit_owner os = ground arith in
      rw e (step-submitted laws full timeout os q empties s)

  -- The code refines the protocol: from a queue that shows who owns its slots, every history that the
  -- protocol allows runs to its end, call by call, with no wait for the mutex, no read outside the
  -- slots and no failed assertion, in a queue that shows the owners at the end; each handover has
  -- added the call with its tag to the calls of `onRequestAsync`, each answer the commit with its tag
  -- and its result to the submissions, in the order of the history, and nothing else was added. A
  -- submission leaves room for a command for each slot.
  pub perform_all-Refines :
      (es : List Event) (n : ℕ) (os : List Owner) (q : Queue R) {last : List Owner}
      → Empties u full (length os)
      → Shows full os q
      → allow_all es os ≡ some last
      → (r : ℕ) × (q' : Queue R) × (perform_all es n q ≡ ok r q')
        × Shows full last q'
        × AllLogged es q q'
  unfolding allow_all perform_all
  perform_all-Refines [] n os q {last} empties s p =
      let e : last ≡ os = ground arith in
      (
        n,
        q,
        refl,
        rw e s,
        record {
          calls = sym (append-nil (map AsyncCall.tag q.calls));
          commits = sym (append-nil (map committed q.sqes));
        },
      )
  perform_all-Refines (e ∷ es) n os q {last} empties s p = elim (Option-cases (allow e os)) [
    | inl bad ↦ absurd (ground arith)
    | inr (next, fine) ↦
        let (r1, q1, run, s1, log) = step-Refines e os q empties s fine in
        let same = length-allow e os fine in
        let room : Empties u full (length next) =
          λ timeout r. omega (arith, empties timeout r, same) in
        let (r2, q2, run2, s2, log2) =
          perform_all-Refines es n next q1 {last = last} room s1 (ground arith) in
        (
          r2,
          q2,
          rw run run2,
          s2,
          record {
            calls =
                log2.calls
                ∙ rw log.calls
                    (append_assoc (map AsyncCall.tag q.calls) (calls_of e) (all_calls es));
            commits =
                log2.commits
                ∙ rw log.commits
                    (append_assoc (map committed q.sqes) (commits_of e) (all_commits es));
          },
        )
  ]
