-- ===== src/Prelude/Results.antt =====
-- A computation that may throw: JavaScript's exceptions as values.
use mathlib.Core.Path.{◌≡◌, refl}
use mathlib.Core.Logic.{◌⊎◌, inl, inr}
use flare_stealthwage.Prelude.Strings.{Text, text}
use mathlib.Core.List.{◌++◌}

-- An `Error` object: its class and its message.
pub record JsError : Type 0 where
  pub name : Text
  pub message : Text

-- `String(e)`
abbrev pub error_string : JsError → Text
error_string e = e.name ++ (text ": " ++ e.message)

pub data Result {ℓ} (A : Type ℓ) : Type ℓ where
  ok : A → Result A
  throw : JsError → Result A

-- `new Error(message)`
abbrev pub plain_error : Text → JsError
plain_error m = record { name = text "Error"; message = m }

abbrev pub type_error : Text → JsError
type_error m = record { name = text "TypeError"; message = m }

abbrev pub then_try {ℓ κ} : {A : Type ℓ} {B : Type κ} → Result A → (A → Result B) → Result B
then_try (ok a) f = f a
then_try (throw e) f = throw e

pub Result-cases {ℓ} :
    {A : Type ℓ} (r : Result A) → ((a : A) × (r ≡ ok a)) ⊎ ((e : JsError) × (r ≡ throw e))
Result-cases (ok a) = inl (a, refl)
Result-cases (throw e) = inr (e, refl)
