-- ===== src/Queue/Protocol.antt =====
-- The life of a request, as the three parties of a queue see it, and the same events as calls of the
-- code.
pub mod Owners
pub mod Steps
pub mod Refines
pub mod Balance
use go_ublksrv.Base.{
  ℕ, Bool, true, false, ◌||◌, not, Option, none, some, List, [], ◌∷◌, ◌++◌, map, get_elem?, set,
  if◌then◌else◌,
}
use go_ublksrv.Word.{u32}
use go_ublksrv.Ioctl.{Ioctl}
use go_ublksrv.Uring.{Uring, Cqe}
use go_ublksrv.Host.{Host}
use go_ublksrv.UserData.{user_data_to_tag, is_target_io}
use go_ublksrv.Queue.Flags.{ublk_io_res_ok}
use go_ublksrv.Queue.Types.{Queue, Run, ok, and_then}
use go_ublksrv.Queue.IoCmd.{ublksrv_complete_io}
use go_ublksrv.Queue.Cqe.{ublksrv_handle_cqe}
use go_ublksrv.Queue.Process.{submit_and_wait}

-- Who has a slot: the driver, which may complete its command; the target, which has a request to
-- answer; the ring, with a command that is not submitted yet.
pub data Owner : Type 0 where
  driver : Owner
  target : Owner
  prepared : Owner

-- The driver completes a command with a request, in a completion that carries this word; the target
-- answers a request with a result; the thread submits.
pub data Event : Type 0 where
  handed : (word : ℕ) → Event
  answered : (tag res : ℕ) → Event
  submitted : (timeout : Bool) → Event

abbrev pub submit_owner : Owner → Owner
submit_owner driver = driver
submit_owner target = target
submit_owner prepared = driver

-- The owner of slot `tag` is `from`, and is `to` from now on.
abbrev pub pass_on : (tag : ℕ) (from to : Owner) → List Owner → Option (List Owner)
pass_on tag from to owners = elim (get_elem? owners tag) [
  | none ↦ none
  | some driver ↦ elim from [ driver ↦ some (set owners tag to) | _ ↦ none ]
  | some target ↦ elim from [ target ↦ some (set owners tag to) | _ ↦ none ]
  | some prepared ↦ elim from [ prepared ↦ some (set owners tag to) | _ ↦ none ]
]

-- The protocol: `none` is an event that is not allowed.
unfoldable pub allow : Event → List Owner → Option (List Owner)
allow (handed word) owners =
    if is_target_io word then none else pass_on (user_data_to_tag word) driver target owners
allow (answered tag res) owners = pass_on tag target prepared owners
allow (submitted timeout) owners = some (map submit_owner owners)

unfoldable pub allow_all : List Event → List Owner → Option (List Owner)
unfolding allow
allow_all [] owners = some owners
allow_all (e ∷ es) owners = elim (allow e owners) [ none ↦ none | some next ↦ allow_all es next ]

-- What an event adds to the log of calls, by tag, and to the log of commits.
abbrev pub calls_of : Event → List ℕ
calls_of (handed word) = user_data_to_tag word ∷ []
calls_of (answered tag res) = []
calls_of (submitted timeout) = []

abbrev pub commits_of : Event → List (ℕ × Option ℕ)
commits_of (handed word) = []
commits_of (answered tag res) = (tag, some (u32 res)) ∷ []
commits_of (submitted timeout) = []

abbrev pub all_calls : List Event → List ℕ
all_calls [] = []
all_calls (e ∷ es) = calls_of e ++ all_calls es

abbrev pub all_commits : List Event → List (ℕ × Option ℕ)
all_commits [] = []
all_commits (e ∷ es) = commits_of e ++ all_commits es

module _ {R : Type 0} ⦃m : Ioctl⦄ ⦃u : Uring R⦄ ⦃h : Host⦄ where
  -- The call that the code makes at an event.
  unfoldable pub perform : Event → Queue R → Run R ℕ
  unfolding ublksrv_handle_cqe ublksrv_complete_io submit_and_wait
  perform (handed word) q = ublksrv_handle_cqe (record { user_data = word; res = ublk_io_res_ok }) q
  perform (answered tag res) q = ublksrv_complete_io tag res q
  perform (submitted timeout) q = submit_and_wait timeout q

  unfoldable pub perform_all : List Event → ℕ → Queue R → Run R ℕ
  unfolding perform
  perform_all [] n q = ok n q
  perform_all (e ∷ es) n q = and_then (perform e q) (λ _. perform_all es n)
