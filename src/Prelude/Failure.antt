-- ===== src/Prelude/Failure.antt =====
-- `Result<A, E>` of the program, with its panics (`expect`, an index out of range) as a third case.
use mathlib.Core.Path.{◌≡◌, refl}
use mathlib.Core.Option.{Option, none, some}
use mathlib.Core.Bool.{Bool, true, false}

pub data Outcome {ℓ κ} (E : Type ℓ) (A : Type κ) : Type (ℓ ⊔ κ) where
  ok : A → Outcome E A
  err : E → Outcome E A
  panic : Outcome E A

infixl 5 ◌>>=◌ ◌>>◌
abbrev pub ◌>>=◌ {ℓ κ μ} :
    {E : Type ℓ} {A : Type κ} {B : Type μ} → Outcome E A → (A → Outcome E B) → Outcome E B
panic >>= next = panic
err why >>= next = err why
ok x >>= next = next x

abbrev pub ◌>>◌ {ℓ μ} : {E : Type ℓ} {B : Type μ} → Outcome E (Unit {0}) → Outcome E B → Outcome E B
m >> k = m >>= λ _. k

-- `if stop { return Err(e) }`.
abbrev pub reject_if {ℓ} : {E : Type ℓ} → Bool → E → Outcome E (Unit {0})
reject_if true e = err e
reject_if false e = ok tt

-- `ok_or`.
abbrev pub ok_or {ℓ κ} : {E : Type ℓ} {A : Type κ} → Option A → E → Outcome E A
ok_or none e = err e
ok_or (some a) e = ok a

-- `expect`.
abbrev pub expect {ℓ κ} : {E : Type ℓ} {A : Type κ} → Option A → Outcome E A
expect none = panic
expect (some a) = ok a

abbrev pub map_err {ℓ κ μ} :
    {E : Type ℓ} {F : Type κ} {A : Type μ} → (E → F) → Outcome E A → Outcome F A
map_err f (ok a) = ok a
map_err f (err e) = err (f e)
map_err f panic = panic

-- A chain that succeeds has a first step that does: its value, and how the rest goes on from there.
pub bind-ok {ℓ κ μ} :
    {E : Type ℓ} {A : Type κ} {B : Type μ} {last : B} (first : Outcome E A) (rest : A → Outcome E B)
    → (do x ← first; rest x) ≡ ok last
    → (mid : A) × (first ≡ ok mid) × (rest mid ≡ ok last)
bind-ok panic rest succeeds = cc
bind-ok (err why) rest succeeds = cc
bind-ok (ok mid) rest succeeds = (mid, refl, succeeds)

pub reject-ok {ℓ κ} :
    {E : Type ℓ} {A : Type κ} {last : A} (stop : Bool) (why : E) (rest : Outcome E A)
    → (reject_if stop why >> rest) ≡ ok last
    → (stop ≡ false) × (rest ≡ ok last)
reject-ok true why rest succeeds = cc
reject-ok false why rest succeeds = (refl, succeeds)
