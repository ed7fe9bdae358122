-- ===== src/Base/Results.antt =====
-- `anyhow::Result`: the error is the text that `to_string` gives, which is the outermost context.
use mathlib.Core.Path.{◌≡◌, refl}
use mathlib.Core.Logic.{◌⊎◌, inl, inr}
use mathlib.Core.Bool.{Bool, true, false}
use mathlib.Core.Option.{Option, none, some}
use codex_no.Base.Text.{Text}

pub data Result {ℓ} (A : Type ℓ) : Type ℓ where
  ok : A → Result A
  err : Text → Result A

-- The `?` operator: an error ends the function, a value goes on to the rest.
module _ {ℓ κ} {A : Type ℓ} {B : Type κ} where
  infixl 5 ◌>>=◌
  abbrev pub ◌>>=◌ : Result A → (A → Result B) → Result B
  err reason >>= rest = err reason
  ok value >>= rest = rest value

  -- What a chain that ends well went through.
  pub >>=-eq-ok :
      {last : B} (first : Result A) (rest : A → Result B)
      → (first >>= rest) ≡ ok last
      → (value : A) × (first ≡ ok value) × (rest value ≡ ok last)
  >>=-eq-ok (err reason) rest ends = cc
  >>=-eq-ok (ok value) rest ends = (value, refl, ends)

infixl 5 ◌>>◌
abbrev pub ◌>>◌ {κ} : {B : Type κ} → Result (Unit {0}) → Result B → Result B
test >> rest = test >>= λ _. rest

-- `anyhow::ensure!`.
abbrev pub ensure : Bool → Text → Result (Unit {0})
ensure true e = ok tt
ensure false e = err e

-- `Option::context` and `Result::context`.
abbrev pub or_fail {ℓ} : {A : Type ℓ} → Option A → Text → Result A
or_fail none e = err e
or_fail (some a) e = ok a

abbrev pub context {ℓ} : {A : Type ℓ} → Result A → Text → Result A
context (ok a) e = ok a
context (err d) e = err e

-- `Result::ok`.
abbrev pub to_option {ℓ} : {A : Type ℓ} → Result A → Option A
to_option (ok a) = some a
to_option (err e) = none

pub Result-cases {ℓ} :
    {A : Type ℓ} (r : Result A) → ((a : A) × (r ≡ ok a)) ⊎ ((e : Text) × (r ≡ err e))
Result-cases (ok a) = inl (a, refl)
Result-cases (err e) = inr (e, refl)
