-- ===== src/Prelude/Gives.antt =====
-- What a function gives when it does not fail, and that it does not touch memory outside its buffer.
use mathlib.Core.Path.{◌≡◌, refl}
use mathlib.Core.Logic.{◌≢◌}
use mathlib.Core.Bool.{Bool, true, false}
use esp_qcloud.Prelude.Tests.{if◌then◌else◌}
use esp_qcloud.Prelude.Codes.{Outcome, ok, err, fault, ◌>>=◌}

-- What holds of a result; a fault has none.
abbrev pub Gives {ℓ} : {A : Type ℓ} → (A → Type 0) → Outcome A → Type 0
Gives P (ok a) = P a
Gives P (err c) = Unit
Gives P fault = ⊥

pub Gives->>= {ℓ κ} :
    {A : Type ℓ} {B : Type κ} (P : A → Type 0) (Q : B → Type 0) (x : Outcome A) (f : A → Outcome B)
    → Gives P x
    → ((a : A) → P a → Gives Q (f a))
    → Gives Q (x >>= f)
Gives->>= P Q (ok a) f h k = k a h
Gives->>= P Q (err c) f h k = tt
Gives->>= P Q fault f h k = absurd h

pub Gives-if {ℓ} :
    {A : Type ℓ} (P : A → Type 0) (b : Bool) (x y : Outcome A)
    → (b ≡ true → Gives P x)
    → (b ≡ false → Gives P y)
    → Gives P (if b then x else y)
Gives-if P true x y h k = h refl
Gives-if P false x y h k = k refl

pub Gives-ne-fault {ℓ} : {A : Type ℓ} (P : A → Type 0) (x : Outcome A) → Gives P x → x ≢ fault
Gives-ne-fault P (ok a) h = λ e. cc e
Gives-ne-fault P (err c) h = λ e. cc e
Gives-ne-fault P fault h = absurd h

-- What holds of the result of a function that does give one.
abbrev pub Surely {ℓ} : {A : Type ℓ} → (A → Type 0) → Outcome A → Type 0
Surely P (ok a) = P a
Surely P (err c) = ⊥
Surely P fault = ⊥

pub Surely->>= {ℓ κ} :
    {A : Type ℓ} {B : Type κ} (P : A → Type 0) (Q : B → Type 0) (x : Outcome A) (f : A → Outcome B)
    → Surely P x
    → ((a : A) → P a → Surely Q (f a))
    → Surely Q (x >>= f)
Surely->>= P Q (ok a) f h k = k a h
Surely->>= P Q (err c) f h k = absurd h
Surely->>= P Q fault f h k = absurd h

pub Surely-if {ℓ} :
    {A : Type ℓ} (P : A → Type 0) (b : Bool) (x y : Outcome A)
    → (b ≡ true → Surely P x)
    → (b ≡ false → Surely P y)
    → Surely P (if b then x else y)
Surely-if P true x y h k = h refl
Surely-if P false x y h k = k refl
