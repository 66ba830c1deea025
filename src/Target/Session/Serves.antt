-- ===== src/Target/Session/Serves.antt =====
-- A target whose handlers take every request keeps to the protocol of its queue.
use mathlib.Core.Path.{subst}
use go_ublksrv.Base.{
  ℕ, ◌*◌, ◌^◌, ◌≤◌, ◌<◌, ◌≡◌, ◌∙◌, ◌||◌, false, none, some, refl, ap, List, [], ◌∷◌, ◌++◌, length,
  map, get_elem?, set, ◌==◌, arith, Bool-cases, Option-cases, inl, inr,
}
use go_ublksrv.Word.{u32}
use go_ublksrv.Ioctl.{Ioctl, IsIoctl}
use go_ublksrv.Uring.{Uring, HasRoom}
use go_ublksrv.Host.{Host}
use go_ublksrv.UserData.{user_data_to_tag, is_target_io}
use go_ublksrv.Queue.Types.{IoDesc, Queue, ok}
use go_ublksrv.Queue.Request.{call_for, longhorn_build_req}
use go_ublksrv.Queue.Protocol.{
  pass_on, Owner, driver, target, prepared, Event, handed, answered, submitted, submit_owner, allow,
  allow_all, perform_all,
}
use go_ublksrv.Queue.Protocol.Owners.{pass_on-some}
use go_ublksrv.Queue.Protocol.Steps.{Shows, Empties}
use go_ublksrv.Queue.Protocol.Refines.{AllLogged, perform_all-Refines}
use go_ublksrv.Target.Types.{Request, minus_one}
use go_ublksrv.Target.Handler.{IoHandler}
use go_ublksrv.Target.Bridge.{
  job_of, fill_request, on_request_async, answers, answer_size, answer_request,
}
use go_ublksrv.Target.Bridge.Answers.{fails, answer_request-once}
use go_ublksrv.Target.Session.{
  Goroutine, Running, Act, gives, ends, submits, own_data, act, act_all,
}
use go_ublksrv.Target.Session.Busy.{
  IsFresh, AllFresh, IsReady, Serves, Serves-message, Serves-submit, Serves-taken, Serves-left,
}

-- What an act asks of the protocol, with no result.
abbrev pub asks : Act → Event
asks (gives word iod buffer) = handed word
asks (ends tag) = answered tag 0
asks (submits timeout) = submitted timeout

abbrev pub no_result : Event → Event
no_result (handed word) = handed word
no_result (answered tag res) = answered tag 0
no_result (submitted timeout) = submitted timeout

-- The requests have at most `room` bytes, as the code reads their size.
abbrev pub Small : ⦃host : Host⦄ → (room : ℕ) → List Act → Type 0
Small room [] = Unit {0}
Small ⦃host⦄ room (gives word iod buffer ∷ acts) =
    (host.htole32 (u32 (iod.nr_sectors * 2 ^ 9)) ≤ room) × Small room acts
Small room (ends tag ∷ acts) = Small room acts
Small room (submits timeout ∷ acts) = Small room acts

nonempty : {A : Type 0} (xs : List A) → 0 < length xs → (x : A) × (rest : List A) × (xs ≡ x ∷ rest)
nonempty [] h = absurd (omega arith)
nonempty (x ∷ xs) h = (x, xs, refl)

-- `takes`: no handler answers with an error.
module _ {S : Type 0} ⦃host : Host⦄ ⦃h : IoHandler S⦄
    (takes : (msg : Request) (s : S) → fails msg s ≡ false) where
  -- One act: an event that the protocol allows, and a target that serves.
  abbrev Follows : (room : ℕ) → Act → List Owner → List Owner → Running S → Type 0
  Follows room a os next t =
      (e : Event) × (t' : Running S) × (act a t ≡ some (e ∷ [], t'))
      × (no_result e ≡ asks a)
      × (allow e os ≡ some next)
      × Serves room next t'

  gives-runs :
      (word : ℕ) (iod : IoDesc) (buffer : List ℕ) (t : Running S) (msg : Request)
      (msgs : List Request)
      → t.msg_chan ≡ msg ∷ msgs
      → act (gives word iod buffer) t
        ≡ some (
          handed word ∷ [],
          record t {
            msg_chan = msgs;
            jobs = set t.jobs (user_data_to_tag word) (
                some (record {
                  job = job_of (call_for iod (own_data (user_data_to_tag word))) buffer msg;
                  iod = iod;
                }));
          },
        )
  unfolding act on_request_async
  gives-runs word iod buffer t msg msgs chan = rw chan refl

  gives-Follows :
      (room word : ℕ) (iod : IoDesc) (buffer : List ℕ) (os : List Owner) (t : Running S)
      {next : List Owner}
      → Small room (gives word iod buffer ∷ [])
      → Serves room os t
      → allow (handed word) os ≡ some next
      → Follows room (gives word iod buffer) os next t
  unfolding allow fill_request longhorn_build_req
  gives-Follows room word iod buffer os t {next} small sv p =
      elim (Bool-cases (is_target_io word)) [
        | inl other ↦ absurd (ground arith)
        | inr own ↦
            let tag = user_data_to_tag word in
            let (at, e) = pass_on-some tag driver target os {next = next} (ground arith) in
            let (msg, msgs, chan) = nonempty t.msg_chan (Serves-message room os t tag sv at) in
            let fresh = (subst (AllFresh room) chan sv.fresh).0 in
            let job = job_of (call_for iod (own_data tag)) buffer msg in
            let ready : IsReady room tag (record { job = job; iod = iod }) = record {
              own_tag = refl;
              idle = record { empty = fresh.empty; room = ground (arith, small.0, fresh.large) };
              fine = fresh.fine;
              large = fresh.large;
            } in
            (
              handed word,
              _,
              gives-runs word iod buffer t msg msgs chan,
              refl,
              p,
              Serves-taken room os t tag msg msgs _ sv at e chan ready,
            )
      ]

  ends-runs :
      (tag : ℕ) (t : Running S) (g : Goroutine) (size : ℕ) (buffer : List ℕ) (msg : Request) (s : S)
      → get_elem? t.jobs tag ≡ some (some g)
      → answer_request g.job g.iod t.store ≡ answers ((g.job.tag, size) ∷ []) buffer msg s
      → act (ends tag) t
        ≡ some (
          answered g.job.tag size ∷ [],
          record { msg_chan = t.msg_chan ++ (msg ∷ []); jobs = set t.jobs tag none; store = s },
        )
  unfolding act
  ends-runs tag t g size buffer msg s there run = ground arith

  ends-Follows :
      (room tag : ℕ) (os : List Owner) (t : Running S) {next : List Owner}
      → Serves room os t
      → allow (answered tag 0) os ≡ some next
      → Follows room (ends tag) os next t
  unfolding allow
  ends-Follows room tag os t {next} sv p =
      let (at, e) = pass_on-some tag target prepared os p in
      let (g, there, ready) = sv.busy tag at in
      let fine : (fails g.job.msg t.store || (g.job.msg.result == minus_one)) ≡ false =
        ground (arith, takes g.job.msg t.store, ready.fine) in
      let (msg, run, empty, large, still) =
        answer_request-once g.job g.iod t.store ready.idle fine refl refl refl in
      let fresh : IsFresh room msg = record {
        empty = empty;
        fine = still;
        large = omega (arith, large, ready.large);
      } in
      (
        answered g.job.tag (answer_size g.job.op_type g.iod),
        _,
        ends-runs tag t g _ _ msg _ there run,
        ap (λ n. answered n 0) ready.own_tag,
        ap (λ n. pass_on n target prepared os) ready.own_tag ∙ p,
        Serves-left room os t tag msg _ sv at e fresh,
      )

  act-Follows :
      (room : ℕ) (a : Act) (os : List Owner) (t : Running S) {next : List Owner}
      → Small room (a ∷ [])
      → Serves room os t
      → allow (asks a) os ≡ some next
      → Follows room a os next t
  unfolding allow act
  act-Follows room (gives word iod buffer) os t small sv p =
      gives-Follows room word iod buffer os t small sv p
  act-Follows room (ends tag) os t small sv p = ends-Follows room tag os t sv p
  act-Follows room (submits timeout) os t {next} small sv p =
      let e : next ≡ map submit_owner os = ground arith in
      (submitted timeout, t, refl, refl, p, rw e (Serves-submit room os t sv))

  Small-one :
      (room : ℕ) (a : Act) (acts : List Act)
      → Small room (a ∷ acts)
      → Small room (a ∷ []) × Small room acts
  Small-one room (gives word iod buffer) acts small = ((small.0, tt), small.1)
  Small-one room (ends tag) acts small = (tt, small)
  Small-one room (submits timeout) acts small = (tt, small)

  -- The acts of a target, one after another, are a history that the protocol allows.
  act_all-allowed :
      (room : ℕ) (acts : List Act) (os : List Owner) (t : Running S) {last : List Owner}
      → Small room acts
      → Serves room os t
      → allow_all (map asks acts) os ≡ some last
      → (es : List Event) × (act_all acts t ≡ some es)
        × (map no_result es ≡ map asks acts)
        × (allow_all es os ≡ some last)
  unfolding allow_all act_all
  act_all-allowed room [] os t small sv p = ([], refl, refl, p)
  act_all-allowed room (a ∷ acts) os t {last} small sv p = elim (Option-cases (allow (asks a) os)) [
    | inl bad ↦ absurd (ground arith)
    | inr (next, fine) ↦
        let (now, later) = Small-one room a acts small in
        let (e, t', run, same, allowed, sv') = act-Follows room a os t now sv fine in
        let (es, run2, same2, allowed2) =
          act_all-allowed room acts next t' {last = last} later sv' (ground arith) in
        (e ∷ es, ground arith, λ i. same i ∷ same2 i, ground arith)
  ]

-- A target that takes every request serves its queue. The queue shows who owns its slots, and the
-- target has a goroutine for each slot that it owns and a message for each other slot; no handler
-- answers with an error, and each request fits into a message. Then, for every history of acts that
-- asks of the protocol only what it allows, no goroutine waits or panics, each act is one event, in
-- order, and the code of the queue runs all of them to the end: with no wait for the mutex, no read
-- outside the slots, and in the queue's logs one call for each request that the driver gave and one
-- commit for each that ended.
pub act_all-Refines :
    {S R : Type 0} ⦃host : Host⦄ ⦃h : IoHandler S⦄ ⦃m : Ioctl⦄ ⦃u : Uring R⦄ (laws : IsIoctl m)
    (full : HasRoom u) (takes : (msg : Request) (s : S) → fails msg s ≡ false) (room n : ℕ)
    (acts : List Act) (os : List Owner) (t : Running S) (q : Queue R) {last : List Owner}
    → Empties u full (length os)
    → Shows full os q
    → Serves room os t
    → Small room acts
    → allow_all (map asks acts) os ≡ some last
    → (es : List Event) × (r : ℕ) × (q' : Queue R) × (act_all acts t ≡ some es)
      × (map no_result es ≡ map asks acts)
      × (perform_all es n q ≡ ok r q')
      × Shows full last q'
      × AllLogged es q q'
act_all-Refines laws full takes room n acts os t q empties shows sv small p =
    let (es, run, same, allowed) = act_all-allowed takes room acts os t small sv p in
    let (r, q', done_, shows', log) =
      perform_all-Refines laws full es n os q empties shows allowed in
    (es, r, q', run, same, done_, shows', log)
