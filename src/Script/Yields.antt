-- ===== src/Script/Yields.antt =====
-- What holds of the result where a script ends well.
use mathlib.Core.Path.{subst}
use flare_stealthwage.Prelude.{◌≡◌, refl, Bool, true, false, Text, Result, ok, throw}
use flare_stealthwage.Script.Run.{
  History, Exit, done, failed, exited, Run, ◌>>=◌, ◌>>◌, continue, pure, must, lift,
}

module _ {A : Type 0} (Q : A → Type 0) where
  abbrev Good : Exit A → Type 0
  Good (done a) = Q a
  Good (failed e) = Unit
  Good (exited m) = Unit

  -- Every result of the part has the property `Q`.
  unfoldable pub Yields : Run A → Type 0
  Yields m = (h : History) → Good (m h).1

  continue-Good :
      {B : Type 0} (r : History × Exit B) (f : B → Run A)
      → ((b : B) → Yields (f b))
      → Good (continue r f).1
  unfolding Yields
  continue-Good (h, done b) f more = more b h
  continue-Good (h, failed e) f more = tt
  continue-Good (h, exited m) f more = tt

  pub bind-Yields :
      {B : Type 0} (m : Run B) (f : B → Run A) → ((b : B) → Yields (f b)) → Yields (m >>= f)
  unfolding Yields ◌>>=◌
  bind-Yields m f more h = continue-Good (m h) f more

  pub pure-Yields : (a : A) → Q a → Yields (pure a)
  unfolding Yields pure
  pure-Yields a q h = q

  pub must-Yields :
      (b : Bool) (msg : Text) (m : Run A) → (b ≡ true → Yields m) → Yields (must b msg >> m)
  unfolding Yields ◌>>=◌ must
  must-Yields true msg m more h = more refl h
  must-Yields false msg m more h = tt

  pub Yields-done : (m : Run A) (h h' : History) (a : A) → Yields m → m h ≡ (h', done a) → Q a
  unfolding Yields
  Yields-done m h h' a y e = subst (λ (r : History × Exit A). Good r.1) e (y h)

-- What one part yields may be used in the next.
module _ {A B : Type 0} (P : B → Type 0) (Q : A → Type 0) where
  next-Good :
      (r : History × Exit B) (f : B → Run A)
      → Good P r.1
      → ((b : B) → P b → Yields Q (f b))
      → Good Q (continue r f).1
  unfolding Yields
  next-Good (h, done b) f p more = more b p h
  next-Good (h, failed e) f p more = tt
  next-Good (h, exited m) f p more = tt

  pub next-Yields :
      (m : Run B) (f : B → Run A)
      → Yields P m
      → ((b : B) → P b → Yields Q (f b))
      → Yields Q (m >>= f)
  unfolding Yields ◌>>=◌
  next-Yields m f p more h = next-Good (m h) f (p h) more

pub lift-Yields :
    {A : Type 0} (Q : A → Type 0) (r : Result A) → ((a : A) → r ≡ ok a → Q a) → Yields Q (lift r)
unfolding Yields lift
lift-Yields Q (ok a) holds h = holds a refl
lift-Yields Q (throw e) holds h = tt
