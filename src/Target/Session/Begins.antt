-- ===== src/Target/Session/Begins.antt =====
-- A target that has just been started serves.
use go_ublksrv.Base.{
  ℕ, zero, suc, ◌*◌, ◌≤◌, ◌≡◌, refl, sym, ap, ◌∙◌, Option, none, some, List, [], ◌∷◌, length,
  get_elem?, arith,
}
use go_ublksrv.Queue.Protocol.{Owner, driver, target}
use go_ublksrv.Target.Types.{make_bytes, blocks, new_request, messages}
use go_ublksrv.Target.Session.{Goroutine, Running}
use go_ublksrv.Target.Session.Busy.{IsFresh, AllFresh, Serves}

pub length-make_bytes : (n : ℕ) → length (make_bytes n) ≡ n
unfolding make_bytes
length-make_bytes zero = refl
length-make_bytes (suc n) = ap suc (length-make_bytes n)

new_request-IsFresh : (i : ℕ) → IsFresh (blocks * 1024) (new_request i)
unfolding new_request
new_request-IsFresh i = record {
  empty = refl;
  fine = refl;
  large = omega (arith, length-make_bytes (blocks * 1024));
}

messages-AllFresh : (from count : ℕ) → AllFresh (blocks * 1024) (messages from count)
unfolding messages
messages-AllFresh from zero = tt
messages-AllFresh from (suc count) = (new_request-IsFresh from, messages-AllFresh (suc from) count)

length-messages : (from count : ℕ) → length (messages from count) ≡ count
unfolding messages
length-messages from zero = refl
length-messages from (suc count) = ap suc (length-messages (suc from) count)

abbrev pub all_driver : ℕ → List Owner
all_driver zero = []
all_driver (suc n) = driver ∷ all_driver n

abbrev pub no_jobs : ℕ → List (Option Goroutine)
no_jobs zero = []
no_jobs (suc n) = none ∷ no_jobs n

length-driver : (n : ℕ) → length (all_driver n) ≡ n
length-driver zero = refl
length-driver (suc n) = ap suc (length-driver n)

length-no_jobs : (n : ℕ) → length (no_jobs n) ≡ n
length-no_jobs zero = refl
length-no_jobs (suc n) = ap suc (length-no_jobs n)

driver-target : (n i : ℕ) → get_elem? (all_driver n) i ≡ some target → ⊥
driver-target zero i at = ground arith
driver-target (suc n) zero at = ground arith
driver-target (suc n) (suc i) at = driver-target n i at

-- A target whose `Start` has made its messages, for a queue of `depth` slots that are the driver's.
abbrev pub begun : {S : Type 0} (depth : ℕ) → S → Running S
begun depth s = record { msg_chan = messages 0 512; jobs = no_jobs depth; store = s }

-- The 512 messages of `Start`, each with room for 512 KiB, are enough for a queue of 512 slots.
pub begun-Serves :
    {S : Type 0} (depth : ℕ) (s : S)
    → depth ≤ 512
    → Serves (blocks * 1024) (all_driver depth) (begun depth s)
begun-Serves depth s few = record {
  busy = λ i at. absurd (driver-target depth i at);
  slots = length-no_jobs depth ∙ sym (length-driver depth);
  fresh = messages-AllFresh 0 512;
  enough = omega (arith, few, length-driver depth, length-messages 0 512);
}
