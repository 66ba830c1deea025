-- ===== src/Daemon/Start/Order.antt =====
-- The order of a daemon's steps: what is created before the start, waited for, and freed too early.
use go_ublksrv.Base.{
  ℕ, zero, suc, ◌+◌, ◌-◌, ◌≡◌, ◌∙◌, ◌||◌, not, Bool, false, refl, ap, List, [], ◌∷◌, ◌++◌, arith,
  ◌==◌,
}
use go_ublksrv.Dev.{Dev}
use go_ublksrv.Daemon.Start.{
  Step, created, start_sent, joined, infos_freed, create_threads, join_threads,
}

-- The queues of the threads that are created, and of those that are waited for, in order.
unfoldable pub created_qids : List Step → List ℕ
created_qids [] = []
created_qids (created info ∷ steps) = info.qid ∷ created_qids steps
created_qids (start_sent ∷ steps) = created_qids steps
created_qids (joined qid ∷ steps) = created_qids steps
created_qids (infos_freed ∷ steps) = created_qids steps

unfoldable pub joined_qids : List Step → List ℕ
joined_qids [] = []
joined_qids (created info ∷ steps) = joined_qids steps
joined_qids (start_sent ∷ steps) = joined_qids steps
joined_qids (joined qid ∷ steps) = qid ∷ joined_qids steps
joined_qids (infos_freed ∷ steps) = joined_qids steps

-- The steps before the start.
unfoldable pub until_start : List Step → List Step
until_start [] = []
until_start (created info ∷ steps) = created info ∷ until_start steps
until_start (start_sent ∷ steps) = []
until_start (joined qid ∷ steps) = joined qid ∷ until_start steps
until_start (infos_freed ∷ steps) = infos_freed ∷ until_start steps

-- Whether the array is freed while a thread that reads it has not been waited for.
unfoldable pub freed_in_use : (running : ℕ) → List Step → Bool
freed_in_use n [] = false
freed_in_use n (created info ∷ steps) = freed_in_use (suc n) steps
freed_in_use n (start_sent ∷ steps) = freed_in_use n steps
freed_in_use n (joined qid ∷ steps) = freed_in_use (n - 1) steps
freed_in_use n (infos_freed ∷ steps) = not (n == 0) || freed_in_use n steps

-- The numbers of `left` queues from `i` on.
unfoldable pub numbers_from : (left i : ℕ) → List ℕ
numbers_from zero i = []
numbers_from (suc left) i = i ∷ numbers_from left (suc i)

pub created_qids-create :
    (d : Dev) (n i : ℕ) (s : List Step)
    → created_qids (create_threads d n i ++ s) ≡ numbers_from n i ++ created_qids s
unfolding created_qids create_threads numbers_from
created_qids-create d zero i s = refl
created_qids-create d (suc n) i s = ap (◌∷◌ i) (created_qids-create d n (suc i) s)

pub created_qids-join :
    (n i : ℕ) (s : List Step) → created_qids (join_threads n i ++ s) ≡ created_qids s
unfolding created_qids join_threads
created_qids-join zero i s = refl
created_qids-join (suc n) i s = created_qids-join n (suc i) s

pub created_qids-until_start :
    (d : Dev) (n i : ℕ) (s : List Step)
    → created_qids (until_start (create_threads d n i ++ (start_sent ∷ s))) ≡ numbers_from n i
unfolding created_qids until_start create_threads numbers_from
created_qids-until_start d zero i s = refl
created_qids-until_start d (suc n) i s = ap (◌∷◌ i) (created_qids-until_start d n (suc i) s)

pub joined_qids-create :
    (d : Dev) (n i : ℕ) (s : List Step) → joined_qids (create_threads d n i ++ s) ≡ joined_qids s
unfolding joined_qids create_threads
joined_qids-create d zero i s = refl
joined_qids-create d (suc n) i s = joined_qids-create d n (suc i) s

pub joined_qids-join :
    (n i : ℕ) → joined_qids (join_threads n i ++ (infos_freed ∷ [])) ≡ numbers_from n i
unfolding joined_qids join_threads numbers_from
joined_qids-join zero i = refl
joined_qids-join (suc n) i = ap (◌∷◌ i) (joined_qids-join n (suc i))

pub freed_in_use-create :
    (k : ℕ) (d : Dev) (n i : ℕ) (s : List Step)
    → freed_in_use k (create_threads d n i ++ s) ≡ freed_in_use (n + k) s
unfolding freed_in_use create_threads
freed_in_use-create k d zero i s = ap (λ (j : ℕ). freed_in_use j s) (omega arith)
freed_in_use-create k d (suc n) i s =
    freed_in_use-create (suc k) d n (suc i) s ∙ ap (λ (j : ℕ). freed_in_use j s) (omega arith)

pub freed_in_use-join : (n i : ℕ) → freed_in_use n (join_threads n i ++ (infos_freed ∷ [])) ≡ false
unfolding freed_in_use join_threads
freed_in_use-join zero i = refl
freed_in_use-join (suc n) i =
    ap (λ (j : ℕ). freed_in_use j (join_threads n (suc i) ++ (infos_freed ∷ []))) (omega arith)
    ∙ freed_in_use-join n (suc i)
