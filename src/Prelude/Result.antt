-- ===== src/Prelude/Result.antt =====
-- A result or the exception that was raised, with the errors of each component of its own.
use mathlib.Core.Path.{◌≡◌, refl}
use mathlib.Core.Bool.{Bool, true, false}

pub data Result {ε α} (Raised : Type ε) (Value : Type α) : Type (ε ⊔ α) where
  err : Raised → Result Raised Value
  ok : Value → Result Raised Value

-- `if not test: raise e`
abbrev pub guard {ε} : {Raised : Type ε} → Bool → Raised → Result Raised (Unit {0})
guard test e = elim test [ true ↦ ok tt | false ↦ err e ]

-- A statement and those after it, which an exception skips.
infixl 5 ◌>>=◌ ◌>>◌
abbrev pub ◌>>=◌ {ε α β} :
    {Raised : Type ε} {Value : Type α} {Next : Type β}
    → Result Raised Value
    → (Value → Result Raised Next)
    → Result Raised Next
r >>= next = elim r [ err e ↦ err e | ok v ↦ next v ]

abbrev pub ◌>>◌ {ε β} :
    {Raised : Type ε} {Next : Type β}
    → Result Raised (Unit {0})
    → Result Raised Next
    → Result Raised Next
r >> next = elim r [ err e ↦ err e | ok u ↦ next ]

pub >>=-eq-ok {ε α β} :
    {Raised : Type ε} {Value : Type α} {Next : Type β} (r : Result Raised Value)
    (next : Value → Result Raised Next) {b : Next}
    → (r >>= next) ≡ ok b
    → (v : Value) × (r ≡ ok v) × (next v ≡ ok b)
>>=-eq-ok (err e) next h = cc
>>=-eq-ok (ok v) next h = (v, refl, h)

pub guard-eq-ok {ε} :
    {Raised : Type ε} (test : Bool) (e : Raised) {u : Unit {0}} → guard test e ≡ ok u → test ≡ true
guard-eq-ok false e h = cc
guard-eq-ok true e h = refl
