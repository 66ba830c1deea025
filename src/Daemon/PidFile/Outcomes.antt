-- ===== src/Daemon/PidFile/Outcomes.antt =====
-- What becomes of the pid file and of the descriptors.
use mathlib.Core.List.{append_assoc}
use go_ublksrv.Base.{
  ℕ, ◌+◌, ◌≡◌, ◌⊎◌, ◌&&◌, not, Bool, true, none, some, [], ◌∷◌, ◌++◌, arith, ◌==◌, if◌then◌else◌,
  Bool-cases, inl, inr,
}
use go_ublksrv.Word.{minus, is_neg}
use go_ublksrv.Daemon.PidFile.{FileAnswers, FileLog, create_pid_file, ublksrv_create_pid_file}

-- What POSIX says: the two calls fail with -1, and `ftruncate` else returns 0.
pub record IsPosix (files : FileAnswers) : Type 0 where
  pub open_fails : is_neg files.opens ≡ true → files.opens ≡ minus 1
  pub truncate_fails : (files.truncates ≡ 0) ⊎ (files.truncates ≡ minus 1)

abbrev pub all_well : FileAnswers → Bool
all_well files = not (is_neg files.opens) && (files.truncates == 0) && files.writes_all

-- A pid file is made where all three calls succeed: then its descriptor is stored, nothing is closed
-- and nothing unlinked. Where any of them fails the result is -1, and `close` is called on a local
-- variable that was never written, whatever descriptor it names, behind that of the file if it was
-- opened; and the file is unlinked, also where it could not be opened, and twice where it could. `open` and
-- `ftruncate` answer as POSIX says, and the device has a directory for pid files.
pub create_pid_file-Outcome :
    (files : FileAnswers) (left_over old : ℕ) (log : FileLog)
    → IsPosix files
    → let made = ublksrv_create_pid_file true files left_over old log in
      (made.ret ≡ (if all_well files then 0 else minus 1))
      × (made.pid_fd ≡ (if all_well files then some files.opens else none))
      × (made.log.closed ≡ (
          if all_well files
          then log.closed
          else if is_neg files.opens
          then log.closed ++ (left_over ∷ [])
          else log.closed ++ (files.opens ∷ left_over ∷ [])))
      × (made.log.unlinked ≡ (
          if all_well files
          then log.unlinked
          else if is_neg files.opens
          then log.unlinked + 1
          else log.unlinked + 2))
unfolding ublksrv_create_pid_file create_pid_file
create_pid_file-Outcome files left_over old log posix =
    let both = append_assoc log.closed (files.opens ∷ []) (left_over ∷ []) in
    elim (Bool-cases (is_neg files.opens)) [
      | inl closed_ ↦
          let e = posix.open_fails closed_ in
          (ground arith, ground arith, ground arith, ground arith)
      | inr opened ↦ elim posix.truncate_fails [
        | inl empty ↦ (ground arith, ground arith, ground arith, ground arith)
        | inr failed ↦ (ground arith, ground arith, ground arith, ground arith)
      ]
    ]
