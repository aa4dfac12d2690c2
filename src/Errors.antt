-- ===== src/Errors.antt =====
-- src/errors.rs: `AppError` with the variants that the modelled code builds, and `Result`.
pub mod Exec
use ubu_orchestrator.Base.{List, String, Bool, true, false, ◌≡◌, refl}

-- `StatusCode`, of which the code uses these.
pub data StatusCode : Type 0 where
  bad_request conflict : StatusCode

pub data AppError : Type 0 where
  not_found : String → AppError
  internal : String → AppError
  upstream : String → AppError
  -- `Diagnostic { status, code, message }`
  diagnostic : StatusCode → String → String → AppError
  -- `Diagnostics { status, summary, items }`
  diagnostics : StatusCode → String → List (String × String) → AppError

abbrev pub bad_request_diagnostic : String → String → AppError
bad_request_diagnostic code message = diagnostic bad_request code message

abbrev pub conflict_diagnostic : String → String → AppError
conflict_diagnostic code message = diagnostic conflict code message

pub data Result {ℓ} (A : Type ℓ) : Type ℓ where
  ok : A → Result A
  err : AppError → Result A

pub ok-eq {ℓ} : {A : Type ℓ} {a b : A} → ok a ≡ ok b → a ≡ b
ok-eq h = cc

-- `if bad { return Err(e); }`
abbrev pub refuse_if : Bool → AppError → Result (Unit {0})
refuse_if true e = err e
refuse_if false e = ok tt

pub refuse_if-eq-ok : (b : Bool) (e : AppError) {u : Unit {0}} → refuse_if b e ≡ ok u → b ≡ false
refuse_if-eq-ok true e h = cc
refuse_if-eq-ok false e h = refl

module _ {ℓ κ} {A : Type ℓ} {B : Type κ} where
  -- Rust's `?`: the rest runs on the value, or the error is the answer.
  infixl 5 ◌>>=◌
  abbrev pub ◌>>=◌ : Result A → (A → Result B) → Result B
  err problem >>= rest = err problem
  ok value >>= rest = rest value

  -- A chain that gave an answer had a value first.
  pub >>=-eq-ok :
      (first : Result A) (rest : A → Result B) {answer : B}
      → (first >>= rest) ≡ ok answer
      → (value : A) × (first ≡ ok value) × (rest value ≡ ok answer)
  >>=-eq-ok (err problem) rest p = cc
  >>=-eq-ok (ok value) rest p = (value, refl, p)

infixl 5 ◌>>◌
abbrev pub ◌>>◌ {ℓ} : {B : Type ℓ} → Result (Unit {0}) → Result B → Result B
first >> rest = first >>= λ _. rest
