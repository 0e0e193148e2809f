-- ===== src/Handler.antt =====
-- The results of handlers (`HandlerResult` of typescript/src/base/types.ts), and a handler's body
-- as a chain of steps that may return early.
use flare_stealthwage.Prelude.{
  ℕ, ◌≡◌, refl, Bool, true, false, Option, none, some, Text, Result, ok, throw, JsError,
}

-- `[dataHexOrNull, status, errorOrNull]`
pub record HandlerResult : Type 0 where
  pub payload : Option Text
  pub status : ℕ
  pub error : Option Text

-- What a handler does: it returns, or its promise is rejected.
abbrev pub Outcome : Type 0
Outcome = Result HandlerResult

-- `[null, 0, reason]`
abbrev pub refusal : Text → HandlerResult
refusal reason = record { payload = none; status = 0; error = some reason }

-- `[data, 1, null]`
abbrev pub success : Text → HandlerResult
success body = record { payload = some body; status = 1; error = none }

-- A part of a handler's body: it goes on with a value, or the handler has ended.
pub data Flow {ℓ} (A : Type ℓ) : Type ℓ where
  next : A → Flow A
  halt : Outcome → Flow A

infixl 5 ◌>>=◌ ◌>>◌
abbrev pub ◌>>=◌ {ℓ κ} : {A : Type ℓ} {B : Type κ} → Flow A → (A → Flow B) → Flow B
next a >>= f = f a
halt o >>= f = halt o

abbrev pub ◌>>◌ {ℓ} : {B : Type ℓ} → Flow (Unit {0}) → Flow B → Flow B
m >> k = m >>= λ _. k

-- `return [null, 0, reason]`
abbrev pub refuse {ℓ} : {A : Type ℓ} → Text → Flow A
refuse reason = halt (ok (refusal reason))

-- `if (!condition) return [null, 0, reason]`
abbrev pub need : Bool → Text → Flow (Unit {0})
need true reason = next tt
need false reason = refuse reason

-- `try { … } catch (e) { return [null, 0, reason(e)] }`
abbrev pub attempt {ℓ} : {A : Type ℓ} → Result A → (JsError → Text) → Flow A
attempt (ok a) reason = next a
attempt (throw e) reason = refuse (reason e)

-- A call outside of any `try`.
abbrev pub call {ℓ} : {A : Type ℓ} → Result A → Flow A
call (ok a) = next a
call (throw e) = halt (throw e)

-- `value ?? refuse`
abbrev pub present {ℓ} : {A : Type ℓ} → Option A → Text → Flow A
present (some a) reason = next a
present none reason = refuse reason

pub >>=-eq-next {ℓ κ} :
    {A : Type ℓ} {B : Type κ} (m : Flow A) (f : A → Flow B) {b : B}
    → (m >>= f) ≡ next b
    → (a : A) × (m ≡ next a) × (f a ≡ next b)
>>=-eq-next (next a) f h = (a, refl, h)
>>=-eq-next (halt o) f h = cc

pub need-eq-next : (b : Bool) (reason : Text) {u : Unit {0}} → need b reason ≡ next u → b ≡ true
need-eq-next true reason h = refl
need-eq-next false reason h = cc

pub attempt-eq-next {ℓ} :
    {A : Type ℓ} (r : Result A) (reason : JsError → Text) {a : A}
    → attempt r reason ≡ next a
    → r ≡ ok a
attempt-eq-next (ok b) reason h = cc
attempt-eq-next (throw e) reason h = cc

pub call-eq-next {ℓ} : {A : Type ℓ} (r : Result A) {a : A} → call r ≡ next a → r ≡ ok a
call-eq-next (ok b) h = cc
call-eq-next (throw e) h = cc

pub present-eq-next {ℓ} :
    {A : Type ℓ} (o : Option A) (reason : Text) {a : A} → present o reason ≡ next a → o ≡ some a
present-eq-next (some b) reason h = cc
present-eq-next none reason h = cc
