-- ===== src/Uring.antt =====
-- The part of liburing that a queue calls, over an abstract ring: an instance argument of the
-- definitions that use it.
use go_ublksrv.Base.{ℕ, suc, Bool, Option, some, List, ◌≡◌}

-- A completion: the word that the command was sent with, and its result, an `int`.
pub record Cqe : Type 0 where
  pub user_data : ℕ
  pub res : ℕ

pub record Uring (R : Type 0) : Type 0 where
  -- `io_uring_get_sqe`: `none` is a full submission queue.
  pub get_sqe : R → Option R
  -- `io_uring_sq_ready`: entries that are prepared and not yet submitted.
  pub sq_ready : R → ℕ
  -- `io_uring_submit_and_wait_timeout` for one completion, with the timeout or with none.
  pub submit_and_wait : (timeout : Bool) → R → ℕ × R
  -- The completions that `io_uring_for_each_cqe` visits, and `io_uring_cq_advance` past them.
  pub cqes : R → List Cqe
  pub cq_advance : ℕ → R → R

-- A submission queue of bounded size, as the code relies on it: where there is room
-- `io_uring_get_sqe` returns an entry, and takes one place.
pub record HasRoom {R : Type 0} (u : Uring R) : Type 0 where
  pub room : R → ℕ
  pub take : (r : R) (k : ℕ) → room r ≡ suc k → (r' : R) × (u.get_sqe r ≡ some r') × (room r' ≡ k)
