-- ===== src/Queue/Ends.antt =====
-- Runs that end: neither blocked, nor a fault, nor a failed assertion.
use mathlib.Core.Path.{subst, sym}
use go_ublksrv.Base.{◌≡◌, refl}
use go_ublksrv.Queue.Types.{Queue, Run, ok, blocked, fault, abort, and_then}
use go_ublksrv.Queue.Invariant.Defs.{Keeps}

-- A run that ends, in a queue with `P`.
abbrev pub Ends : {R A : Type 0} → (Queue R → Type 0) → Run R A → Type 0
Ends P (ok a q) = P q
Ends P blocked = ⊥
Ends P fault = ⊥
Ends P abort = ⊥

module _ {R : Type 0} where
  pub Ends-eq : {A : Type 0} (P : Queue R → Type 0) {r r' : Run R A} → r ≡ r' → Ends P r' → Ends P r
  Ends-eq P e h = subst (Ends P) (sym e) h

  pub Ends-map :
      {A : Type 0} (P Q : Queue R → Type 0) (r : Run R A)
      → ((q : Queue R) → P q → Q q)
      → Ends P r
      → Ends Q r
  Ends-map P Q (ok a q') f h = f q' h
  Ends-map P Q blocked f h = elim h [ ]
  Ends-map P Q fault f h = elim h [ ]
  Ends-map P Q abort f h = elim h [ ]

  pub Ends-ok :
      {A : Type 0} (P : Queue R → Type 0) (r : Run R A)
      → Ends P r
      → (a : A) × (q' : Queue R) × (r ≡ ok a q') × P q'
  Ends-ok P (ok a q') h = (a, q', refl, h)
  Ends-ok P blocked h = elim h [ ]
  Ends-ok P fault h = elim h [ ]
  Ends-ok P abort h = elim h [ ]

  pub Ends-bind :
      {A B : Type 0} (P Q : Queue R → Type 0) (r : Run R A) (f : A → Queue R → Run R B)
      → Ends P r
      → ((a : A) (q' : Queue R) → P q' → Ends Q (f a q'))
      → Ends Q (and_then r f)
  Ends-bind P Q (ok a q') f h k = k a q' h
  Ends-bind P Q blocked f h k = elim h [ ]
  Ends-bind P Q fault f h k = elim h [ ]
  Ends-bind P Q abort f h k = elim h [ ]

  pub Ends-Keeps :
      {A : Type 0} (P Q : Queue R → Type 0) (r : Run R A)
      → Ends P r
      → Keeps Q r
      → Ends (λ q. P q × Q q) r
  Ends-Keeps P Q (ok a q) e k = (e, k)
  Ends-Keeps P Q blocked e k = elim e [ ]
  Ends-Keeps P Q fault e k = elim e [ ]
  Ends-Keeps P Q abort e k = elim e [ ]
