-- ===== src/Script/Traces.antt =====
-- What holds of the calls and of the result where a part of a script ends well.
use mathlib.Core.List.{append_assoc}
use mathlib.Core.Path.{subst}
use flare_stealthwage.Prelude.{
  ◌≡◌, refl, sym, ap, ◌∙◌, Bool, true, false, [], ◌∷◌, ◌++◌, Text, Result, ok, throw,
}
use flare_stealthwage.Script.Run.{
  Call, History, Exit, done, failed, exited, exit_of, Run, ◌>>=◌, continue, ask, lift, pure, must,
}

-- Calls were made since.
abbrev pub Extends : History → History → Type 0
Extends h h' = (since : History) × (h' ≡ since ++ h)

pub Extends-refl : (h : History) → Extends h h
Extends-refl h = ([], refl)

pub Extends-trans : {h k l : History} → Extends h k → Extends k l → Extends h l
Extends-trans {h} (s, e) (t, e') = (t ++ s, e' ∙ ap (λ k. t ++ k) e ∙ sym (append_assoc t s h))

-- Wherever it is called, and however it ends, a part only adds calls.
unfoldable pub Grows : {A : Type 0} → Run A → Type 0
Grows m = (h : History) → Extends h (m h).0

module _ {A : Type 0} where
  pub ask-Grows : (c : Call) (answer : History → Result A) → Grows (ask c answer)
  unfolding Grows ask
  ask-Grows c answer h = (c ∷ [], refl)

  pub lift-Grows : (r : Result A) → Grows (lift r)
  unfolding Grows lift
  lift-Grows r h = ([], refl)

  pub pure-Grows : (a : A) → Grows (pure a)
  unfolding Grows pure
  pure-Grows a h = ([], refl)

  continue-Grows :
      {B : Type 0} (r : History × Exit B) (f : B → Run A)
      → ((b : B) → Grows (f b))
      → Extends r.0 (continue r f).0
  unfolding Grows
  continue-Grows (h, done b) f more = more b h
  continue-Grows (h, failed e) f more = ([], refl)
  continue-Grows (h, exited m) f more = ([], refl)

  pub bind-Grows :
      {B : Type 0} (m : Run B) (f : B → Run A) → Grows m → ((b : B) → Grows (f b)) → Grows (m >>= f)
  unfolding Grows ◌>>=◌
  bind-Grows m f g more h = Extends-trans (g h) (continue-Grows (m h) f more)

pub must-Grows : (b : Bool) (msg : Text) → Grows (must b msg)
unfolding Grows must
must-Grows b msg h = ([], refl)

module _ {A : Type 0} (Q : History → A → Type 0) where
  abbrev Good : History × Exit A → Type 0
  Good (h, done a) = Q h a
  Good (h, failed e) = Unit
  Good (h, exited m) = Unit

  -- Where the part ends well, its calls and its result have the property.
  unfoldable pub Ends : Run A → History → Type 0
  Ends m h = Good (m h)

  pub pure-Ends : (a : A) (h : History) → Q h a → Ends (pure a) h
  unfolding Ends pure
  pure-Ends a h q = q

  pub Ends-done : (m : Run A) (h h' : History) (a : A) → Ends m h → m h ≡ (h', done a) → Q h' a
  unfolding Ends
  Ends-done m h h' a y e = subst (λ (r : History × Exit A). Good r) e y

module _ {A B : Type 0} (P : History → B → Type 0) (Q : History → A → Type 0) where
  continue-Ends :
      (r : History × Exit B) (f : B → Run A)
      → Good P r
      → ((h : History) (b : B) → P h b → Ends Q (f b) h)
      → Good Q (continue r f)
  unfolding Ends
  continue-Ends (h, done b) f p more = more h b p
  continue-Ends (h, failed e) f p more = tt
  continue-Ends (h, exited m) f p more = tt

  pub bind-Ends :
      (m : Run B) (f : B → Run A) (h : History)
      → Ends P m h
      → ((h' : History) (b : B) → P h' b → Ends Q (f b) h')
      → Ends Q (m >>= f) h
  unfolding Ends ◌>>=◌
  bind-Ends m f h p more = continue-Ends (m h) f p more

module _ {A : Type 0} where
  answered-Good :
      (c : Call) (answer : History → Result A) (h : History) (r : Result A)
      → answer h ≡ r
      → Good (λ h' a. (h' ≡ c ∷ h) × (answer h ≡ ok a)) (c ∷ h, exit_of r)
  answered-Good c answer h (ok a) e = (refl, e)
  answered-Good c answer h (throw x) e = tt

  -- What a call was answered.
  pub ask-Ends :
      (c : Call) (answer : History → Result A) (h : History)
      → Ends (λ h' a. (h' ≡ c ∷ h) × (answer h ≡ ok a)) (ask c answer) h
  unfolding Ends ask
  ask-Ends c answer h = answered-Good c answer h (answer h) refl

  ended-Good : (h : History) (r : History × Exit A) → Extends h r.0 → Good (λ h' a. Extends h h') r
  ended-Good h (h', done a) x = x
  ended-Good h (h', failed e) x = tt
  ended-Good h (h', exited msg) x = tt

  pub Grows-Ends : (m : Run A) (h : History) → Grows m → Ends (λ h' a. Extends h h') m h
  unfolding Ends Grows
  Grows-Ends m h g = ended-Good h (m h) (g h)

module _ {A : Type 0} (P Q : History → A → Type 0) where
  weaken-Good :
      (r : History × Exit A) → ((h : History) (a : A) → P h a → Q h a) → Good P r → Good Q r
  weaken-Good (h, done a) w p = w h a p
  weaken-Good (h, failed e) w p = tt
  weaken-Good (h, exited m) w p = tt

  pub weaken-Ends :
      (m : Run A) (h : History)
      → ((h' : History) (a : A) → P h' a → Q h' a)
      → Ends P m h
      → Ends Q m h
  unfolding Ends
  weaken-Ends m h w p = weaken-Good (m h) w p

-- What a test was.
pub must-Ends :
    (b : Bool) (msg : Text) (h : History) → Ends (λ h' u. (h' ≡ h) × (b ≡ true)) (must b msg) h
unfolding Ends must
must-Ends true msg h = (refl, refl)
must-Ends false msg h = tt

-- Behind a part that is of no matter.
module _ {A B : Type 0} (Q : History → A → Type 0) where
  pub grown-Ends :
      (m : Run B) (f : B → Run A) (h : History)
      → Grows m
      → ((h' : History) (b : B) → Extends h h' → Ends Q (f b) h')
      → Ends Q (m >>= f) h
  grown-Ends m f h g more = bind-Ends (λ h' b. Extends h h') Q m f h (Grows-Ends m h g) more
