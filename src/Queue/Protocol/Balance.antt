-- ===== src/Queue/Protocol/Balance.antt =====
-- Each call of the target is answered once.
use mathlib.Core.List.{map-append}
use go_ublksrv.Base.{
  ℕ, zero, suc, ◌+◌, ◌≡◌, ◌≢◌, refl, Option, none, some, inl, inr, List, [], ◌∷◌, ◌++◌, length, map,
  get_elem?, set, arith, ◌==◌, if◌then◌else◌, Bool-cases, Option-cases, get_elem?-set_self,
  get_elem?-set_ne, get_elem?-lt,
}
use go_ublksrv.Ioctl.{Ioctl, IsIoctl}
use go_ublksrv.Uring.{Uring, HasRoom}
use go_ublksrv.Host.{Host}
use go_ublksrv.UserData.{user_data_to_tag, is_target_io}
use go_ublksrv.Queue.Types.{AsyncCall, Queue, ok}
use go_ublksrv.Queue.IoCmd.Twice.{committed}
use go_ublksrv.Queue.Protocol.{
  Owner, driver, target, prepared, Event, handed, answered, submitted, submit_owner, allow,
  allow_all, perform_all, calls_of, commits_of, all_calls, all_commits,
}
use go_ublksrv.Queue.Protocol.Owners.{is_target, pass_on-some}
use go_ublksrv.Queue.Protocol.Steps.{Shows, Empties}
use go_ublksrv.Queue.Protocol.Refines.{perform_all-Refines}

abbrev pub count : ℕ → List ℕ → ℕ
count t [] = 0
count t (x ∷ xs) = (if x == t then 1 else 0) + count t xs

count-append : (t : ℕ) (xs ys : List ℕ) → count t (xs ++ ys) ≡ count t xs + count t ys
count-append t [] ys = omega arith
count-append t (x ∷ xs) ys = omega (arith, count-append t xs ys)

-- 1 where the target has the slot, else 0.
abbrev pub with_target : ℕ → List Owner → ℕ
with_target t os = elim (get_elem? os t) [ none ↦ 0 | some o ↦ is_target o ]

abbrev pub commit_tag : ℕ × Option ℕ → ℕ
commit_tag c = c.0

with_target-pass :
    (t tag : ℕ) (to : Owner) (os : List Owner) {from : Owner} {next : List Owner}
    → get_elem? os tag ≡ some from
    → next ≡ set os tag to
    → with_target t next + (if tag == t then is_target from else 0)
      ≡ with_target t os + (if tag == t then is_target to else 0)
with_target-pass t tag to os {from} e n = elim (Bool-cases (tag == t)) [
  | inl same ↦
      let here : tag ≡ t = ground arith in
      ground (arith, get_elem?-set_self os tag to (get_elem?-lt os tag e))
  | inr other ↦
      let apart : tag ≢ t = λ s. ground arith in ground (arith, get_elem?-set_ne os to apart)
]

with_target-submit :
    (t : ℕ) (os : List Owner) → with_target t (map submit_owner os) ≡ with_target t os
with_target-submit t [] = refl
with_target-submit zero (driver ∷ os) = refl
with_target-submit zero (target ∷ os) = refl
with_target-submit zero (prepared ∷ os) = refl
with_target-submit (suc t) (o ∷ os) = with_target-submit t os

allow-balance :
    (e : Event) (t : ℕ) (os : List Owner) {next : List Owner}
    → allow e os ≡ some next
    → count t (calls_of e) + with_target t os
      ≡ count t (map commit_tag (commits_of e)) + with_target t next
unfolding allow
allow-balance (handed word) t os {next} p = elim (Bool-cases (is_target_io word)) [
  | inl other ↦ absurd (ground arith)
  | inr own ↦
      let (at, e) =
        pass_on-some (user_data_to_tag word) driver target os {next = next} (ground arith) in
      ground (arith, with_target-pass t (user_data_to_tag word) target os at e)
]
allow-balance (answered tag res) t os p =
    let (at, e) = pass_on-some tag target prepared os p in
    ground (arith, with_target-pass t tag prepared os at e)
allow-balance (submitted timeout) t os p = ground (arith, with_target-submit t os)

all_commits-append :
    (t : ℕ) (xs ys : List (ℕ × Option ℕ))
    → count t (map commit_tag (xs ++ ys))
      ≡ count t (map commit_tag xs) + count t (map commit_tag ys)
all_commits-append t xs ys =
    rw (map-append commit_tag xs ys) (count-append t (map commit_tag xs) (map commit_tag ys))

allow_all-balance :
    (es : List Event) (t : ℕ) (os : List Owner) {last : List Owner}
    → allow_all es os ≡ some last
    → count t (all_calls es) + with_target t os
      ≡ count t (map commit_tag (all_commits es)) + with_target t last
unfolding allow_all
allow_all-balance [] t os {last} p = let e : last ≡ os = ground arith in ground arith
allow_all-balance (e ∷ es) t os {last} p = elim (Option-cases (allow e os)) [
  | inl bad ↦ absurd (ground arith)
  | inr (next, fine) ↦ omega (
    arith,
    allow-balance e t os fine,
    allow_all-balance es t next {last = last} (ground arith),
    count-append t (calls_of e) (all_calls es),
    all_commits-append t (commits_of e) (all_commits es),
  )
]

-- How often the target was called for a slot, and how often a command was sent for it.
abbrev pub times_called : {R : Type 0} → ℕ → Queue R → ℕ
times_called t q = count t (map AsyncCall.tag q.calls)

abbrev pub times_sent : {R : Type 0} → ℕ → Queue R → ℕ
times_sent t q = count t (map commit_tag (map committed q.sqes))

module _ {R : Type 0} ⦃m : Ioctl⦄ ⦃u : Uring R⦄ ⦃h : Host⦄ (laws : IsIoctl m)
    (full : HasRoom u) where
  -- Calls and commits balance. Along any history that the protocol allows, for each slot, the new
  -- calls of the target and the request that it may have had before are as many as the new commits
  -- and the request that it may still have. The queue shows the owners at the beginning, and a
  -- submission leaves room for a command for each slot.
  pub answered_once :
      (es : List Event) (t : ℕ) (os : List Owner) (q : Queue R) {last : List Owner}
      → Empties u full (length os)
      → Shows full os q
      → allow_all es os ≡ some last
      → (r : ℕ) × (q' : Queue R) × (perform_all es 0 q ≡ ok r q')
        × (times_called t q' + with_target t os + times_sent t q
            ≡ times_called t q + with_target t last + times_sent t q')
  answered_once es t os q {last} empties s p =
      let (r, q', run, s', log) = perform_all-Refines laws full es 0 os q empties s p in
      let calls : times_called t q' ≡ times_called t q + count t (all_calls es) =
        rw log.calls (count-append t (map AsyncCall.tag q.calls) (all_calls es)) in
      let sends : times_sent t q' ≡ times_sent t q + count t (map commit_tag (all_commits es)) =
        rw log.commits (all_commits-append t (map committed q.sqes) (all_commits es)) in
      (r, q', run, omega (arith, calls, sends, allow_all-balance es t os p))
