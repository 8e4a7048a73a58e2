-- ===== src/Exec.antt =====
-- Methods that change an object and may raise. What was written before a raise stays written, so
-- the state comes back beside the exception too.
use commons_operator.Prelude.{◌≡◌, refl, ap, subst, Option, none, some}

-- The exceptions that the scripts meet, by what handles them.
pub data Error : Type 0 where
  value_error key_error type_error file_not_found os_error test_runner : Error

pub data Result {ℓ} (A : Type ℓ) : Type ℓ where
  ok : A → Result A
  raised : Error → Result A

abbrev pub Exec : Type 0 → Type 0 → Type 0
Exec S A = S → Result A × S

module _ {S A : Type 0} where
  abbrev pub pure : A → Exec S A
  pure a s = (ok a, s)

  abbrev pub raise : Error → Exec S A
  raise e s = (raised e, s)

  abbrev pub gets : (S → A) → Exec S A
  gets f s = (ok (f s), s)

  -- A value that may be missing, and what is raised then.
  abbrev pub or_raise : Option A → Error → Exec S A
  or_raise none e = raise e
  or_raise (some a) e = pure a

abbrev pub modify : {S : Type 0} → (S → S) → Exec S (Unit {0})
modify f s = (ok tt, f s)

module _ {S A B : Type 0} where
  abbrev pub continue : Result A → (A → Exec S B) → Exec S B
  continue (ok a) f s = f a s
  continue (raised e) f s = (raised e, s)

  infixl 5 ◌>>=◌ ◌>>◌
  abbrev pub ◌>>=◌ : Exec S A → (A → Exec S B) → Exec S B
  ◌>>=◌ m f s = let (r, s') = m s in continue r f s'

  abbrev pub ◌>>◌ : Exec S A → Exec S B → Exec S B
  m >> k = m >>= λ _. k

  pub >>=-ok :
      (m : Exec S A) (f : A → Exec S B) (s : S) (a : A) (t : S)
      → m s ≡ (ok a, t)
      → (m >>= f) s ≡ f a t
  >>=-ok m f s a t e = ap (λ p. continue p.0 f p.1) e

  continue-eq-ok :
      (r : Result A) (f : A → Exec S B) (t : S) {b : B} {s' : S}
      → continue r f t ≡ (ok b, s')
      → (a : A) × (r ≡ ok a) × (f a t ≡ (ok b, s'))
  continue-eq-ok (ok a) f t h = (a, refl, h)
  continue-eq-ok (raised e) f t h = cc (ap (λ p. p.0) h)

  -- What a method that returned did: its first part returned too.
  pub >>=-eq-ok :
      (m : Exec S A) (f : A → Exec S B) (s : S) {b : B} {s' : S}
      → (m >>= f) s ≡ (ok b, s')
      → (a : A) × (t : S) × (m s ≡ (ok a, t)) × (f a t ≡ (ok b, s'))
  >>=-eq-ok m f s h =
      let (a, e, k) = continue-eq-ok (m s).0 f (m s).1 h in (a, (m s).1, λ i. (e i, (m s).1), k)

-- A last step that only returns leaves the state.
pub continue-pure :
    {S A B : Type 0} (r : Result A) (b : B) (s : S) → (continue r (λ _. pure b) s).1 ≡ s
continue-pure (ok a) b s = refl
continue-pure (raised e) b s = refl

-- What holds of the value and the state of a method that returned; nothing is said of one that
-- raised.
module _ {S B : Type 0} (Q : B → S → Type 0) where
  abbrev pub EndsIn : Result B → S → Type 0
  EndsIn (ok b) t = Q b t
  EndsIn (raised e) t = Unit

  pub EndsIn_ok : {p : Result B × S} {b : B} {t : S} → p ≡ (ok b, t) → EndsIn p.0 p.1 → Q b t
  EndsIn_ok e h = subst (λ p. EndsIn p.0 p.1) e h

  pub EndsIn-state : (r : Result B) (t : S) → ((b : B) → Q b t) → EndsIn r t
  EndsIn-state (ok b) t h = h b
  EndsIn-state (raised e) t h = tt

pub EndsIn-continue :
    {S A B : Type 0} (P : A → S → Type 0) (Q : B → S → Type 0) (r : Result A) (f : A → Exec S B)
    (t : S)
    → EndsIn P r t
    → ((a : A) (u : S) → P a u → EndsIn Q (f a u).0 (f a u).1)
    → EndsIn Q (continue r f t).0 (continue r f t).1
EndsIn-continue P Q (ok a) f t h k = k a t h
EndsIn-continue P Q (raised e) f t h k = tt

pub EndsIn-map :
    {S B : Type 0} (P Q : B → S → Type 0) (r : Result B) (t : S)
    → ((b : B) (u : S) → P b u → Q b u)
    → EndsIn P r t
    → EndsIn Q r t
EndsIn-map P Q (ok b) t f h = f b t h
EndsIn-map P Q (raised e) t f h = tt

-- A method returned, and this holds of the value and the state.
module _ {S B : Type 0} (Q : B → S → Type 0) where
  abbrev pub Returns : Result B × S → Type 0
  Returns (ok b, t) = Q b t
  Returns (raised e, t) = ⊥

  pub Returns-value : (p : Result B × S) → Returns p → (b : B) × (t : S) × (p ≡ (ok b, t)) × Q b t
  Returns-value (ok b, t) h = (b, t, refl, h)
  Returns-value (raised e, t) h = absurd h

pub Returns-continue :
    {S A B : Type 0} (P : A → S → Type 0) (Q : B → S → Type 0) (r : Result A) (f : A → Exec S B)
    (t : S)
    → Returns P (r, t)
    → ((a : A) (u : S) → P a u → Returns Q (f a u))
    → Returns Q (continue r f t)
Returns-continue P Q (ok a) f t h k = k a t h
Returns-continue P Q (raised e) f t h k = absurd h

-- A property of the state that stays, whether the first part returned or raised.
pub continue_keeps :
    {S A B : Type 0} (I : S → Type 0) (r : Result A) (f : A → Exec S B) (t : S)
    → I t
    → ((a : A) (u : S) → I u → I (f a u).1)
    → I (continue r f t).1
continue_keeps I (ok a) f t h k = k a t h
continue_keeps I (raised e) f t h k = h
