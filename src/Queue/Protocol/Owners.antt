-- ===== src/Queue/Protocol/Owners.antt =====
-- Counting the slots of an owner.
use go_ublksrv.Base.{
  ℕ, zero, suc, ◌+◌, ◌≤◌, ◌≡◌, refl, some, List, [], ◌∷◌, length, map, get_elem?, set, arith,
}
use go_ublksrv.Queue.Protocol.{Owner, driver, target, prepared, submit_owner, pass_on}

abbrev pub is_target : Owner → ℕ
is_target driver = 0
is_target target = 1
is_target prepared = 0

abbrev pub is_prepared : Owner → ℕ
is_prepared driver = 0
is_prepared target = 0
is_prepared prepared = 1

abbrev pub sum_of : (Owner → ℕ) → List Owner → ℕ
sum_of f [] = 0
sum_of f (o ∷ os) = f o + sum_of f os

pub sum_of-set :
    (f : Owner → ℕ) (os : List Owner) (i : ℕ) (to : Owner) {from : Owner}
    → get_elem? os i ≡ some from
    → sum_of f (set os i to) + f from ≡ sum_of f os + f to
sum_of-set f [] i to e = absurd (ground arith)
sum_of-set f (o ∷ os) zero to e = ground arith
sum_of-set f (o ∷ os) (suc i) to e = omega (arith, sum_of-set f os i to e)

pub sum_of-le : (os : List Owner) → sum_of is_target os + sum_of is_prepared os ≤ length os
sum_of-le [] = omega arith
sum_of-le (driver ∷ os) = omega (arith, sum_of-le os)
sum_of-le (target ∷ os) = omega (arith, sum_of-le os)
sum_of-le (prepared ∷ os) = omega (arith, sum_of-le os)

pub submit-target : (os : List Owner) → sum_of is_target (map submit_owner os) ≡ sum_of is_target os
submit-target [] = refl
submit-target (driver ∷ os) = omega (arith, submit-target os)
submit-target (target ∷ os) = omega (arith, submit-target os)
submit-target (prepared ∷ os) = omega (arith, submit-target os)

pub submit-prepared : (os : List Owner) → sum_of is_prepared (map submit_owner os) ≡ 0
submit-prepared [] = refl
submit-prepared (driver ∷ os) = omega (arith, submit-prepared os)
submit-prepared (target ∷ os) = omega (arith, submit-prepared os)
submit-prepared (prepared ∷ os) = omega (arith, submit-prepared os)

pub length-submit : (os : List Owner) → length (map submit_owner os) ≡ length os
length-submit [] = refl
length-submit (o ∷ os) = omega (arith, length-submit os)

-- What an allowed pass says of the owners.
pub pass_on-some :
    (tag : ℕ) (from to : Owner) (os : List Owner) {next : List Owner}
    → pass_on tag from to os ≡ some next
    → (get_elem? os tag ≡ some from) × (next ≡ set os tag to)
pass_on-some tag driver to os e = ground arith
pass_on-some tag target to os e = ground arith
pass_on-some tag prepared to os e = ground arith
