-- ===== src/Queue/Invariant/Slots.antt =====
-- The slots as a list, runs as a sequence, and histories as a preorder.
use mathlib.Core.Path.{subst}
use go_ublksrv.Base.{
  ℕ, zero, suc, ◌+◌, ◌<◌, ◌≡◌, refl, sym, some, List, [], ◌∷◌, length, arith, get_elem?, set,
}
use go_ublksrv.Queue.Types.{Io, Queue, Run, ok, blocked, fault, abort, and_then}
use go_ublksrv.Queue.Invariant.Defs.{SlotOk, Slots, Evolves, Keeps, After}

pub Slots-get :
    (depth k : ℕ) (ios : List Io) (i : ℕ) {io : Io}
    → Slots depth k ios
    → get_elem? ios i ≡ some io
    → SlotOk depth (k + i) io
Slots-get depth k [] i s e = absurd (ground arith)
Slots-get depth k (x ∷ ios) zero s e = ground arith
Slots-get depth k (x ∷ ios) (suc i) s e = ground (arith, Slots-get depth (suc k) ios i s.1 e)

pub Slots-set :
    (depth k : ℕ) (ios : List Io) (i : ℕ) (io : Io)
    → Slots depth k ios
    → SlotOk depth (k + i) io
    → Slots depth k (set ios i io)
Slots-set depth k [] i io s h = tt
Slots-set depth k (x ∷ ios) zero io s h = (ground arith, s.1)
Slots-set depth k (x ∷ ios) (suc i) io s h =
    (s.0, Slots-set depth (suc k) ios i io s.1 (ground arith))

pub get_elem?-some :
    {A : Type 0} (xs : List A) (i : ℕ) → i < length xs → (x : A) × (get_elem? xs i ≡ some x)
get_elem?-some [] i h = elim h [ ]
get_elem?-some (x ∷ xs) zero h = (x, refl)
get_elem?-some (x ∷ xs) (suc i) h = get_elem?-some xs i (omega arith)

pub slot_at :
    (depth : ℕ) (ios : List Io) (i : ℕ) {io : Io}
    → Slots depth 0 ios
    → get_elem? ios i ≡ some io
    → SlotOk depth i io
slot_at depth ios i {io} s e =
    let start : 0 + i ≡ i = omega arith in
    subst (λ j. SlotOk depth j io) start (Slots-get depth 0 ios i s e)

pub Slots-with :
    (depth : ℕ) (ios : List Io) (i : ℕ) (io : Io)
    → Slots depth 0 ios
    → SlotOk depth i io
    → Slots depth 0 (set ios i io)
Slots-with depth ios i io s h =
    let start : i ≡ 0 + i = omega arith in
    Slots-set depth 0 ios i io s (subst (λ j. SlotOk depth j io) start h)

module _ {R : Type 0} where
  pub Evolves-refl : (q : Queue R) → Evolves q q
  Evolves-refl q = ground arith

  pub Evolves-trans : {p q r : Queue R} → Evolves p q → Evolves q r → Evolves p r
  Evolves-trans a b = ground arith

  pub Keeps-bind :
      {A B : Type 0} (P Q : Queue R → Type 0) (r : Run R A) (f : A → Queue R → Run R B)
      → Keeps P r
      → ((a : A) (q' : Queue R) → P q' → Keeps Q (f a q'))
      → Keeps Q (and_then r f)
  Keeps-bind P Q (ok a q') f h k = k a q' h
  Keeps-bind P Q blocked f h k = tt
  Keeps-bind P Q fault f h k = elim h [ ]
  Keeps-bind P Q abort f h k = elim h [ ]

  pub Keeps-eq :
      {A : Type 0} (P : Queue R → Type 0) {r r' : Run R A} → r ≡ r' → Keeps P r' → Keeps P r
  Keeps-eq P e h = subst (Keeps P) (sym e) h

  pub Keeps-After :
      {A : Type 0} {p q : Queue R} (r : Run R A)
      → Evolves p q
      → Keeps (After q) r
      → Keeps (After p) r
  Keeps-After (ok a q') e h = (h.0, Evolves-trans e h.1)
  Keeps-After blocked e h = tt
  Keeps-After fault e h = h
  Keeps-After abort e h = h
