-- ===== src/Json.antt =====
-- The values that `json.load` returns and `json.dump` takes, and the conversions of the script's
-- own data. A number is an `int` or a `float`, as Python's decoder tells them apart.
use commons_operator.Prelude.{
  ◌≡◌, refl, ap, Bool, true, false, not, ◌&&◌, Option, none, some, List, [], ◌∷◌, map, Text,
}
use commons_operator.Prelude.Int.{ℤ, is_zero}
use commons_operator.Float.{Float}
use commons_operator.Prelude.Dict.{Dict, lookup}

mutual
  pub data Value (F : Type 0) : Type 0 where
    null : Value F
    boolean : Bool → Value F
    int : ℤ → Value F
    float : F → Value F
    str : Text → Value F
    arr : Items F → Value F
    obj : Fields F → Value F

  pub data Items (F : Type 0) : Type 0 where
    nil : Items F
    cons : Value F → Items F → Items F

  pub data Fields (F : Type 0) : Type 0 where
    end : Fields F
    field : Text → Value F → Fields F → Fields F

module _ {F : Type 0} where
  -- A list of values as an array, and back.
  abbrev pub to_items : List (Value F) → Items F
  to_items [] = nil
  to_items (v ∷ vs) = cons v (to_items vs)

  abbrev pub of_items : Items F → List (Value F)
  of_items nil = []
  of_items (cons v vs) = v ∷ of_items vs

  abbrev pub to_fields : Dict (Value F) → Fields F
  to_fields [] = end
  to_fields ((k, v) ∷ d) = field k v (to_fields d)

  abbrev pub of_fields : Fields F → Dict (Value F)
  of_fields end = []
  of_fields (field k v d) = (k, v) ∷ of_fields d

  pub of_items-to_items : (vs : List (Value F)) → of_items (to_items vs) ≡ vs
  of_items-to_items [] = refl
  of_items-to_items (v ∷ vs) = ap (◌∷◌ v) (of_items-to_items vs)

  pub of_fields-to_fields : (d : Dict (Value F)) → of_fields (to_fields d) ≡ d
  of_fields-to_fields [] = refl
  of_fields-to_fields ((k, v) ∷ d) = ap (◌∷◌ (k, v)) (of_fields-to_fields d)

-- A chain of steps of which each may fail.
infixl 5 ◌>>=◌ ◌>>◌
abbrev pub ◌>>=◌ {ℓ κ} : {A : Type ℓ} {B : Type κ} → Option A → (A → Option B) → Option B
none >>= f = none
some a >>= f = f a

abbrev pub ◌>>◌ {ℓ} : {B : Type ℓ} → Option (Unit {0}) → Option B → Option B
m >> k = m >>= λ _. k

abbrev pub guard : Bool → Option (Unit {0})
guard true = some tt
guard false = none

-- `[decode(v) for v in vs]`, where an element may fail.
unfoldable pub traverse {ℓ κ} :
    {A : Type ℓ} {B : Type κ} → (A → Option B) → List A → Option (List B)
traverse f [] = some []
traverse f (v ∷ vs) = do b ← f v; bs ← traverse f vs; some (b ∷ bs)

pub traverse-map {ℓ κ} :
    {A : Type ℓ} {B : Type κ} (f : A → Option B) (g : B → A)
    → ((b : B) → f (g b) ≡ some b)
    → (bs : List B) → traverse f (map g bs) ≡ some bs
unfolding traverse
traverse-map f g back [] = refl
traverse-map f g back (b ∷ bs) = rw (back b, traverse) (rw (traverse-map f g back bs, traverse))

module _ {F : Type 0} where
  abbrev pub as_dict : Value F → Option (Dict (Value F))
  as_dict (obj d) = some (of_fields d)
  as_dict v = none

  abbrev pub as_list : Value F → Option (List (Value F))
  as_list (arr vs) = some (of_items vs)
  as_list v = none

  abbrev pub as_text : Value F → Option Text
  as_text (str s) = some s
  as_text v = none

  abbrev pub as_int : Value F → Option ℤ
  as_int (int n) = some n
  as_int v = none

  abbrev pub as_bool : Value F → Option Bool
  as_bool (boolean b) = some b
  as_bool v = none

  abbrev pub as_float : Value F → Option F
  as_float (float x) = some x
  as_float v = none

  -- `str` or `None`
  abbrev pub as_optional : Value F → Option (Option Text)
  as_optional null = some none
  as_optional (str s) = some (some s)
  as_optional v = none

  abbrev pub of_optional : Option Text → Value F
  of_optional none = null
  of_optional (some s) = str s

  abbrev pub of_texts : List Text → Value F
  of_texts ts = arr (to_items (map (λ t. str t) ts))

  unfoldable pub as_texts : Value F → Option (List Text)
  as_texts v = do vs ← as_list v; traverse as_text vs

  -- `d[k]`, read by what the value is used as.
  unfoldable pub require : {A : Type 0} → (Value F → Option A) → Text → Dict (Value F) → Option A
  require read k d = do v ← lookup k d; read v

  -- `d.get(k, default)`
  unfoldable pub get_or : {A : Type 0} → (Value F → Option A) → A → Text → Dict (Value F) → Option A
  get_or read default k d = elim (lookup k d) [ none ↦ some default | some v ↦ read v ]

module _ {F : Type 0} ⦃d : Float F⦄ where
  -- What Python takes for false.
  abbrev pub is_truthy : Value F → Bool
  is_truthy null = false
  is_truthy (boolean b) = b
  is_truthy (int n) = not (is_zero n)
  is_truthy (float x) = not (d.le x (d.of_ℕ 0) && d.le (d.of_ℕ 0) x)
  is_truthy (str []) = false
  is_truthy (str (c ∷ s)) = true
  is_truthy (arr nil) = false
  is_truthy (arr (cons v vs)) = true
  is_truthy (obj end) = false
  is_truthy (obj (field k v fs)) = true

module _ (F : Type 0) where
  pub as_optional-of_optional : (o : Option Text) → as_optional (of_optional {F = F} o) ≡ some o
  as_optional-of_optional none = refl
  as_optional-of_optional (some s) = refl

  pub as_texts-of_texts : (ts : List Text) → as_texts (of_texts {F = F} ts) ≡ some ts
  unfolding as_texts
  as_texts-of_texts ts =
      let text : Text → Value F = λ t. str t in
      rw (of_items-to_items (map text ts), as_texts) (traverse-map as_text text (λ t. refl) ts)
