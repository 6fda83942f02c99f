-- ===== src/Base/Effects.antt =====
-- Go functions that return (value, error) and change the state of the machine they run on.
-- What was written before an error stays written, so the state comes back beside the error too.
use mathlib.Core.Path.{◌≡◌, refl}
use mathlib.Core.Logic.{◌⊎◌, inl, inr}
use mathlib.Core.Bool.{Bool, false}
use mathlib.Core.Option.{Option, none, some}
use mathlib.Core.List.{◌++◌}
use hostpath_provisioner.Base.Texts.{Text, bytes}

-- google.golang.org/grpc/codes, as far as the driver uses them.
pub data Code : Type 0 where
  invalid_argument not_found already_exists aborted internal unavailable unimplemented : Code

abbrev pub code_name : Code → Text
code_name invalid_argument = bytes "InvalidArgument"
code_name not_found = bytes "NotFound"
code_name already_exists = bytes "AlreadyExists"
code_name aborted = bytes "Aborted"
code_name internal = bytes "Internal"
code_name unavailable = bytes "Unavailable"
code_name unimplemented = bytes "Unimplemented"

-- An error of the operating system, with whether it is os.ErrNotExist and its text; a gRPC status;
-- an error made by errors.New or fmt.Errorf, with its text.
pub data Error : Type 0 where
  os_error : Bool → Text → Error
  status : Code → Text → Error
  errorf : Text → Error

-- err.Error()
unfoldable pub message : Error → Text
message (os_error _ text) = text
message (status c text) = bytes "rpc error: code = " ++ code_name c ++ bytes " desc = " ++ text
message (errorf text) = text

-- os.IsNotExist, which does not look into what fmt.Errorf wraps.
abbrev pub is_not_exist : Error → Bool
is_not_exist (os_error b _) = b
is_not_exist (status _ _) = false
is_not_exist (errorf _) = false

-- What a call of the operating system or of a library returns.
pub data Result {ℓ} (A : Type ℓ) : Type ℓ where
  ok : A → Result A
  err : Error → Result A

-- How a function of the driver ends: it returns, returns an error, or panics.
pub data Outcome {ℓ} (A : Type ℓ) : Type ℓ where
  returns : A → Outcome A
  fails : Error → Outcome A
  panics : Outcome A

abbrev pub Exec {ℓ} : Type ℓ → Type ℓ → Type ℓ
Exec S A = S → Outcome A × S

module _ {ℓ} {A : Type ℓ} where
  abbrev pub outcome : Result A → Outcome A
  outcome (ok a) = returns a
  outcome (err e) = fails e

  abbrev pub caught : Outcome A → Outcome (Result A)
  caught (returns a) = returns (ok a)
  caught (fails e) = returns (err e)
  caught panics = panics

module _ {ℓ} {S A : Type ℓ} where
  abbrev pub pure : A → Exec S A
  pure a s = (returns a, s)

  abbrev pub fail : Error → Exec S A
  fail e s = (fails e, s)

  abbrev pub panic : Exec S A
  panic s = (panics, s)

  -- A pure check, whose error is returned.
  abbrev pub lift : Result A → Exec S A
  lift r s = (outcome r, s)

  -- A pointer that is used: nil panics.
  abbrev pub deref : Option A → Exec S A
  deref none s = (panics, s)
  deref (some a) s = (returns a, s)

  -- A call that changes nothing, and returns the error if there is one.
  abbrev pub read : (S → Result A) → Exec S A
  read f s = (outcome (f s), s)

  -- The same, for the caller to look at the error.
  abbrev pub gets : (S → A) → Exec S A
  gets f s = (returns (f s), s)

  -- A call that changes the state, and returns the error if there is one.
  abbrev pub perform : (S → Result A × S) → Exec S A
  perform f s = let (r, s') = f s in (outcome r, s')

  -- The same, for the caller to look at the error.
  abbrev pub attempt : (S → Result A × S) → Exec S (Result A)
  attempt f s = let (r, s') = f s in (returns r, s')

  -- The error of a function of the driver as a value; a panic is not caught.
  abbrev pub try : Exec S A → Exec S (Result A)
  try m s = let (r, s') = m s in (caught r, s')

module _ {ℓ} {S A B : Type ℓ} where
  abbrev pub continue : Outcome A → (A → Exec S B) → Exec S B
  continue (returns a) f s = f a s
  continue (fails e) f s = (fails e, s)
  continue panics f s = (panics, s)

  infixl 5 ◌>>=◌ ◌>>◌
  abbrev pub ◌>>=◌ : Exec S A → (A → Exec S B) → Exec S B
  ◌>>=◌ m f s = let (r, s') = m s in continue r f s'

  abbrev pub ◌>>◌ : Exec S A → Exec S B → Exec S B
  m >> k = m >>= λ _. k

-- To split on a result and keep the equation.
pub Result-cases {ℓ} :
    {A : Type ℓ} (r : Result A) → ((a : A) × (r ≡ ok a)) ⊎ ((e : Error) × (r ≡ err e))
Result-cases (ok a) = inl (a, refl)
Result-cases (err e) = inr (e, refl)

-- A call whose two results are known.
pub pair_eq {ℓ κ} :
    {A : Type ℓ} {B : Type κ} (x : A × B) {a : A} {b : B} → x.0 ≡ a → x.1 ≡ b → x ≡ (a, b)
pair_eq x p q = λ i. (p i, q i)

pub Outcome-cases {ℓ} :
    {A : Type ℓ} (r : Outcome A)
    → ((a : A) × (r ≡ returns a)) ⊎ (((e : Error) × (r ≡ fails e)) ⊎ (r ≡ panics))
Outcome-cases (returns a) = inl (a, refl)
Outcome-cases (fails e) = inr (inl (e, refl))
Outcome-cases panics = inr (inr refl)
