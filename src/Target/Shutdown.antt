-- ===== src/Target/Shutdown.antt =====
-- The end of a device: its queues' threads, the goroutines that delete it, and its daemon, which meet
-- at the channel `Done` (c_bridge.go) and at `pthread_join` (ublkhelper.c).
pub mod Meets
use go_ublksrv.Base.{
  ℕ, zero, suc, ◌+◌, ◌≡◌, Bool, true, false, Option, some, List, [], ◌∷◌, length, get_elem?, set,
}

-- A thread in its loop; in `notifyShutdown`, which sends on `Done`; behind it.
pub data Stage : Type 0 where
  looping : Stage
  notifying : Stage
  exited : Stage

-- The threads by queue; the calls of `deleteC` so far and those that still wait at `<-Done`; how many
-- threads the daemon has joined; whether the device is registered.
pub record World : Type 0 where
  pub threads : List Stage
  pub deletes : ℕ
  pub waiting : ℕ
  pub joined : ℕ
  pub registered : Bool

abbrev pub all_looping : ℕ → List Stage
all_looping zero = []
all_looping (suc n) = looping ∷ all_looping n

-- A device with `n` queues, whose threads are all in their loops: each has initialised its queue.
abbrev pub serving : (n : ℕ) → World
serving n = record {
  threads = all_looping n;
  deletes = 0;
  waiting = 0;
  joined = 0;
  registered = true;
}

-- `Done` is not buffered, so that a send and a receive happen together; and it is one for all
-- devices, so that the calls of `deleteC` are those for any device, and a thread of another device
-- may meet them.
pub data EndStep (w : World) (w' : World) : Type 0 where
  -- A goroutine begins to wait in `deleteC`.
  delete : w' ≡ record w { deletes = suc w.deletes; waiting = suc w.waiting } → EndStep w w'
  -- The loop of a thread breaks, and it calls `notifyShutdown`.
  break_ :
      (i : ℕ)
      → get_elem? w.threads i ≡ some looping
      → w' ≡ record w { threads = set w.threads i notifying }
      → EndStep w w'
  -- The send of a thread meets a receive.
  meet :
      (i left : ℕ)
      → get_elem? w.threads i ≡ some notifying
      → w.waiting ≡ suc left
      → w' ≡ record w { threads = set w.threads i exited; waiting = left }
      → EndStep w w'
  -- The send of a thread of another device meets a receive.
  elsewhere : (left : ℕ) → w.waiting ≡ suc left → w' ≡ record w { waiting = left } → EndStep w w'
  -- `pthread_join` of the next thread in order.
  join :
      get_elem? w.threads w.joined ≡ some exited
      → w' ≡ record w { joined = suc w.joined }
      → EndStep w w'
  -- `ublksrv_start_daemon` has returned.
  unregister : w.joined ≡ length w.threads → w' ≡ record w { registered = false } → EndStep w w'

pub data Reach (w : World) : World → Type 0 where
  here : Reach w w
  next : {v u : World} → Reach w v → EndStep v u → Reach w u
