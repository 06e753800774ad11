-- ===== src/Prelude/Errors.antt =====
-- What a call returns or raises, for any type of exceptions.
use mathlib.Core.Path.{◌≡◌, refl}
use mathlib.Core.Bool.{Bool, true, false}
use keep_api_gateway.Prelude.Tests.{if◌then◌else◌}

pub data Result {ℓ κ} (E : Type ℓ) (A : Type κ) : Type (ℓ ⊔ κ) where
  ok : A → Result E A
  err : E → Result E A

module _ {ℓ κ} {E : Type ℓ} {B : Type κ} where
  infixl 5 ◌>>=◌ ◌>>◌
  abbrev pub ◌>>=◌ {μ} : {A : Type μ} → Result E A → (A → Result E B) → Result E B
  ok x >>= next = next x
  err raised >>= next = err raised

  abbrev pub ◌>>◌ : Result E (Unit {0}) → Result E B → Result E B
  first >> next = first >>= λ _. next

pub bind-ok {ℓ κ μ} :
    {E : Type ℓ} {A : Type μ} {B : Type κ} (r : Result E A) (next : A → Result E B) (b : B)
    → (r >>= next) ≡ ok b
    → (a : A) × (r ≡ ok a) × (next a ≡ ok b)
bind-ok (ok a) next b h = (a, refl, h)
bind-ok (err raised) next b h = absurd (cc)

pub guard-ok {ℓ κ} :
    {E : Type ℓ} {A : Type κ} (c : Bool) (raised : E) (r : Result E A) (a : A)
    → (if c then err raised else r) ≡ ok a
    → (c ≡ false) × (r ≡ ok a)
guard-ok true raised r a h = absurd (cc)
guard-ok false raised r a h = (refl, h)

pub require-ok {ℓ κ} :
    {E : Type ℓ} {A : Type κ} (c : Bool) (raised : E) (r : Result E A) (a : A)
    → (if c then r else err raised) ≡ ok a
    → (c ≡ true) × (r ≡ ok a)
require-ok true raised r a h = (refl, h)
require-ok false raised r a h = absurd (cc)
