-- ===== src/Base/Preserve.antt =====
-- What a function of the driver keeps true of the machine, however it ends: one rule for each way to
-- put such functions together.
use mathlib.Core.Path.{◌≡◌, refl}
use mathlib.Core.Bool.{Bool, true, false}
use mathlib.Core.Logic.{inl, inr}
use mathlib.Core.Option.{Option, none, some}
use hostpath_provisioner.Base.Tests.{if◌then◌else◌}
use hostpath_provisioner.Base.Effects.{
  Error, Result, ok, err, Outcome, returns, fails, panics, Exec, pure, fail, panic, lift, deref,
  read, gets, perform, attempt, try, continue, ◌>>=◌, Result-cases,
}

pub record Keeps {S A : Type 0} (P : S → Type 0) (m : Exec S A) : Type 0 where
  pub behind : (s : S) → P s → P (m s).1

module _ {S A : Type 0} (P : S → Type 0) where
  pub pure-Keeps : (a : A) → Keeps P (pure a)
  pure-Keeps a = record { behind = λ s h. h }

  pub fail-Keeps : (e : Error) → Keeps P (fail {A = A} e)
  fail-Keeps e = record { behind = λ s h. h }

  pub panic-Keeps : Keeps P (panic {A = A})
  panic-Keeps = record { behind = λ s h. h }

  pub lift-Keeps : (r : Result A) → Keeps P (lift r)
  lift-Keeps r = record { behind = λ s h. h }

  pub deref-Keeps : (o : Option A) → Keeps P (deref o)
  deref-Keeps none = record { behind = λ s h. h }
  deref-Keeps (some a) = record { behind = λ s h. h }

  pub read-Keeps : (f : S → Result A) → Keeps P (read f)
  read-Keeps f = record { behind = λ s h. h }

  pub gets-Keeps : (f : S → A) → Keeps P (gets f)
  gets-Keeps f = record { behind = λ s h. h }

  pub perform-Keeps : (f : S → Result A × S) → ((s : S) → P s → P (f s).1) → Keeps P (perform f)
  perform-Keeps f k = record { behind = k }

  pub attempt-Keeps : (f : S → Result A × S) → ((s : S) → P s → P (f s).1) → Keeps P (attempt f)
  attempt-Keeps f k = record { behind = k }

  pub try-Keeps : (m : Exec S A) → Keeps P m → Keeps P (try m)
  try-Keeps m k = record { behind = k.behind }

  pub if-Keeps : (b : Bool) (m n : Exec S A) → Keeps P m → Keeps P n → Keeps P (if b then m else n)
  if-Keeps true m n k l = k
  if-Keeps false m n k l = l

module _ {S A B : Type 0} (P : S → Type 0) where
  continue-Keeps :
      (r : Outcome A) (f : A → Exec S B) (s : S)
      → ((a : A) → Keeps P (f a))
      → P s
      → P (continue r f s).1
  continue-Keeps (returns a) f s k h = (k a).behind s h
  continue-Keeps (fails e) f s k h = h
  continue-Keeps panics f s k h = h

  pub bind-Keeps :
      (m : Exec S A) (f : A → Exec S B) → Keeps P m → ((a : A) → Keeps P (f a)) → Keeps P (m >>= f)
  bind-Keeps m f k l = record { behind = λ s h. continue-Keeps (m s).0 f (m s).1 l (k.behind s h) }

  -- A result that the caller looks at.
  pub result-Keeps :
      (r : Result A) (f : A → Exec S B) (g : Error → Exec S B)
      → ((a : A) → Keeps P (f a))
      → ((e : Error) → Keeps P (g e))
      → Keeps P (elim r [ ok a ↦ f a | err e ↦ g e ])
  result-Keeps (ok a) f g k l = k a
  result-Keeps (err e) f g k l = l e

  -- A lookup that may find nothing.
  pub option-Keeps :
      (o : Option A) (m : Exec S B) (f : A → Exec S B)
      → Keeps P m
      → ((a : A) → o ≡ some a → Keeps P (f a))
      → Keeps P (elim o [ none ↦ m | some a ↦ f a ])
  option-Keeps none m f k l = k
  option-Keeps (some a) m f k l = l a refl

  -- A read whose result the rest depends on.
  pub read_then-Keeps :
      (f : S → Result A) (g : A → Exec S B)
      → ((s : S) (a : A) → f s ≡ ok a → P s → P (g a s).1)
      → Keeps P (read f >>= g)
  read_then-Keeps f g k = record {
    behind =
        λ s h. elim (Result-cases (f s)) [ inl (a, e) ↦ rw e (k s a e h) | inr (x, e) ↦ rw e h ];
  }
