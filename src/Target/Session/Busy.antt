-- ===== src/Target/Session/Busy.antt =====
-- What the target has while it serves: a goroutine for each slot that it owns, and a message for each
-- other slot.
use mathlib.Core.Path.{subst}
use go_ublksrv.Base.{
  ℕ, zero, suc, ◌+◌, ◌≤◌, ◌<◌, ◌≡◌, ◌∙◌, false, Option, none, some, refl, sym, ap, List, [], ◌∷◌,
  ◌++◌, length, map, get_elem?, set, get_elem?-set_self, get_elem?-set_ne, ℕ_discrete, get_elem?-lt,
  length-set, length-append, ◌==◌, arith,
}
use go_ublksrv.Queue.Protocol.{Owner, driver, target, prepared, submit_owner}
use go_ublksrv.Queue.Protocol.Owners.{
  is_target, sum_of, sum_of-set, sum_of-le, submit-target, length-submit,
}
use go_ublksrv.Target.Types.{Request, capacity, minus_one}
use go_ublksrv.Target.Bridge.Answers.{IsIdle}
use go_ublksrv.Target.Session.{Goroutine, Running}

-- A message that is not waited for, has no failure, and has room for `room` bytes.
pub record IsFresh (room : ℕ) (msg : Request) : Type 0 where
  pub empty : msg.complete ≡ 0
  pub fine : (msg.result == minus_one) ≡ false
  pub large : room ≤ capacity msg.rdata

abbrev pub AllFresh : (room : ℕ) → List Request → Type 0
AllFresh room [] = Unit {0}
AllFresh room (msg ∷ msgs) = IsFresh room msg × AllFresh room msgs

pub AllFresh-append :
    (room : ℕ) (msgs : List Request) (msg : Request)
    → AllFresh room msgs
    → IsFresh room msg
    → AllFresh room (msgs ++ (msg ∷ []))
AllFresh-append room [] msg all one = (one, tt)
AllFresh-append room (m ∷ msgs) msg all one = (all.0, AllFresh-append room msgs msg all.1 one)

-- A goroutine of slot `i` that has what it needs.
pub record IsReady (room i : ℕ) (g : Goroutine) : Type 0 where
  pub own_tag : g.job.tag ≡ i
  pub idle : IsIdle g.job.msg
  pub fine : (g.job.msg.result == minus_one) ≡ false
  pub large : room ≤ capacity g.job.msg.rdata

-- A slot that the target owns has its goroutine.
abbrev pub Busy : (room : ℕ) → List Owner → List (Option Goroutine) → Type 0
Busy room os jobs =
    (i : ℕ)
    → get_elem? os i ≡ some target
    → (g : Goroutine) × (get_elem? jobs i ≡ some (some g)) × IsReady room i g

-- The target serves slots with these owners.
pub record Serves {S : Type 0} (room : ℕ) (os : List Owner) (t : Running S) : Type 0 where
  pub busy : Busy room os t.jobs
  pub slots : length t.jobs ≡ length os
  pub fresh : AllFresh room t.msg_chan
  pub enough : length os ≤ length t.msg_chan + sum_of is_target os

-- A slot is taken.
pub Busy-taken :
    (room : ℕ) (os : List Owner) (jobs : List (Option Goroutine)) (i : ℕ) (g : Goroutine)
    → i < length jobs
    → IsReady room i g
    → Busy room os jobs
    → Busy room (set os i target) (set jobs i (some g))
Busy-taken room os jobs i g inside ready busy j at = elim (ℕ_discrete i j) [
  | yes same ↦ (
    g,
    ap (get_elem? (set jobs i (some g))) (sym same) ∙ get_elem?-set_self jobs i (some g) inside,
    subst (λ n. IsReady room n g) same ready,
  )
  | no other ↦
      let (g', there, ready') = busy j (sym (get_elem?-set_ne os target other) ∙ at) in
      (g', get_elem?-set_ne jobs (some g) other ∙ there, ready')
]

-- A slot is given back.
pub Busy-left :
    (room : ℕ) (os : List Owner) (jobs : List (Option Goroutine)) (i : ℕ)
    → i < length os
    → Busy room os jobs
    → Busy room (set os i prepared) (set jobs i none)
Busy-left room os jobs i inside busy j at = elim (ℕ_discrete i j) [
  | yes same ↦
      let gone : get_elem? (set os i prepared) j ≡ some prepared =
        ap (get_elem? (set os i prepared)) (sym same) ∙ get_elem?-set_self os i prepared inside in
      absurd (ground (arith, gone, at))
  | no other ↦
      let (g, there, ready) = busy j (sym (get_elem?-set_ne os prepared other) ∙ at) in
      (g, get_elem?-set_ne jobs none other ∙ there, ready)
]

submit-at :
    (os : List Owner) (i : ℕ)
    → get_elem? (map submit_owner os) i ≡ some target
    → get_elem? os i ≡ some target
submit-at [] i at = at
submit-at (driver ∷ os) zero at = absurd (ground arith)
submit-at (target ∷ os) zero at = refl
submit-at (prepared ∷ os) zero at = absurd (ground arith)
submit-at (o ∷ os) (suc i) at = submit-at os i at

-- While a slot is the driver's there is a message for it.
pub Serves-message :
    {S : Type 0} (room : ℕ) (os : List Owner) (t : Running S) (i : ℕ)
    → Serves room os t
    → get_elem? os i ≡ some driver
    → 0 < length t.msg_chan
Serves-message room os t i sv at = omega (
  arith,
  sv.enough,
  sum_of-set is_target os i target at,
  sum_of-le (set os i target),
  length-set os i target,
)

pub Serves-submit :
    {S : Type 0} (room : ℕ) (os : List Owner) (t : Running S)
    → Serves room os t
    → Serves room (map submit_owner os) t
Serves-submit room os t sv = record {
  busy = λ i at. sv.busy i (submit-at os i at);
  slots = sv.slots ∙ sym (length-submit os);
  fresh = sv.fresh;
  enough = omega (arith, sv.enough, submit-target os, length-submit os);
}

pub Serves-taken :
    {S : Type 0} (room : ℕ) (os : List Owner) (t : Running S) (i : ℕ) (msg : Request)
    (msgs : List Request) (g : Goroutine) {next : List Owner}
    → Serves room os t
    → get_elem? os i ≡ some driver
    → next ≡ set os i target
    → t.msg_chan ≡ msg ∷ msgs
    → IsReady room i g
    → Serves room next (record t { msg_chan = msgs; jobs = set t.jobs i (some g) })
Serves-taken room os t i msg msgs g {next} sv at e chan ready = rw e record {
  busy =
      Busy-taken room os t.jobs i g (omega (arith, sv.slots, get_elem?-lt os i at)) ready sv.busy;
  slots = length-set t.jobs i (some g) ∙ sv.slots ∙ sym (length-set os i target);
  fresh = (subst (AllFresh room) chan sv.fresh).1;
  enough = omega (
    arith,
    sv.enough,
    ap length chan,
    sum_of-set is_target os i target at,
    length-set os i target,
  );
}

pub Serves-left :
    {S : Type 0} (room : ℕ) (os : List Owner) (t : Running S) (i : ℕ) (msg : Request) (s : S)
    {next : List Owner}
    → Serves room os t
    → get_elem? os i ≡ some target
    → next ≡ set os i prepared
    → IsFresh room msg
    → Serves room next
        (record { msg_chan = t.msg_chan ++ (msg ∷ []); jobs = set t.jobs i none; store = s })
Serves-left room os t i msg s {next} sv at e fresh = rw e record {
  busy = Busy-left room os t.jobs i (get_elem?-lt os i at) sv.busy;
  slots = length-set t.jobs i none ∙ sv.slots ∙ sym (length-set os i prepared);
  fresh = AllFresh-append room t.msg_chan msg sv.fresh fresh;
  enough = omega (
    arith,
    sv.enough,
    length-append t.msg_chan (msg ∷ []),
    sum_of-set is_target os i prepared at,
    length-set os i prepared,
  );
}
