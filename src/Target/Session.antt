-- ===== src/Target/Session.antt =====
-- The target at work: the goroutines of a queue's requests, as events of the queue's protocol.
pub mod Busy
pub mod Serves
pub mod Begins
use go_ublksrv.Base.{
  ℕ, Bool, true, false, Option, none, some, List, [], ◌∷◌, ◌++◌, ◌*◌, map, get_elem?, set,
}
use go_ublksrv.Host.{Host}
use go_ublksrv.UserData.{user_data_to_tag}
use go_ublksrv.Queue.Types.{IoDesc, IoData}
use go_ublksrv.Queue.Request.{call_for}
use go_ublksrv.Queue.Protocol.{Event, handed, answered, submitted}
use go_ublksrv.Target.Types.{Request}
use go_ublksrv.Target.Handler.{IoHandler}
use go_ublksrv.Target.Bridge.{
  Job, Taken, no_device, no_message, started, on_request_async, Answer, answers, dies, waits,
  answer_request,
}

-- A goroutine with the descriptor of its tag, which the driver does not change before the answer.
pub record Goroutine : Type 0 where
  pub job : Job
  pub iod : IoDesc

-- The messages that wait in `msgChan`, the goroutine of each slot, and what is stored.
pub record Running (S : Type 0) : Type 0 where
  pub msg_chan : List Request
  pub jobs : List (Option Goroutine)
  pub store : S

-- The driver completes a command with a request, whose descriptor is `iod` and whose bytes are
-- `buffer`; the goroutine of a slot
-- runs to its end; the queue's thread submits.
pub data Act : Type 0 where
  gives : (word : ℕ) (iod : IoDesc) (buffer : List ℕ) → Act
  ends : (tag : ℕ) → Act
  submits : (timeout : Bool) → Act

-- The `struct ublk_io_data` of a slot.
abbrev pub own_data : (tag : ℕ) → IoData
own_data tag = record {
  tag = tag;
  iod = some (tag * 24);
  private_data = record { size = 0; seq = 0 };
}

module _ {S : Type 0} ⦃host : Host⦄ ⦃h : IoHandler S⦄ where
  -- The events of an act, and the target behind it; `none` where it waits, panics, or has no
  -- goroutine for the slot.
  unfoldable pub act : Act → Running S → Option (List Event × Running S)
  unfolding on_request_async
  act (gives word iod buffer) t =
      let tag = user_data_to_tag word in
      elim (on_request_async true t.msg_chan (call_for iod (own_data tag)) buffer) [
        | no_device ↦ none
        | no_message ↦ none
        | started job msg_chan ↦ some (
          handed word ∷ [],
          record t {
            msg_chan = msg_chan;
            jobs = set t.jobs tag (some (record { job = job; iod = iod }));
          },
        )
      ]
  act (ends tag) t = elim (get_elem? t.jobs tag) [
    | none ↦ none
    | some slot ↦ elim slot [
      | none ↦ none
      | some g ↦ elim (answer_request g.job g.iod t.store) [
        | dies ↦ none
        | waits ↦ none
        | answers completions buffer msg s ↦ some (
          map (λ (c : ℕ × ℕ). answered c.0 c.1) completions,
          record { msg_chan = t.msg_chan ++ (msg ∷ []); jobs = set t.jobs tag none; store = s },
        )
      ]
    ]
  ]
  act (submits timeout) t = some (submitted timeout ∷ [], t)

  unfoldable pub act_all : List Act → Running S → Option (List Event)
  unfolding act
  act_all [] t = some []
  act_all (a ∷ acts) t = elim (act a t) [
    | none ↦ none
    | some (events, t') ↦ elim (act_all acts t') [ none ↦ none | some more ↦ some (events ++ more) ]
  ]
