-- ===== src/Options/Keeps/Tokens.antt =====
-- What the options keep is kept by whatever an argument is read as.
use commons_operator.Prelude.{
  ◌≡◌, Bool, Option, none, some, List, [], ◌∷◌, Text, codes, All, keep, starts_with, has_char,
  strip_prefix, text_eq, ◌||◌, ◌⊎◌, inl, inr, Bool-cases, ◌==◌,
}
use commons_operator.Prelude.Dict.{Dict, lookup}
use commons_operator.Options.Number.{is_negative_number}
use commons_operator.Options.{
  Action, exits, sets, takes, gathers, Token, argument, option, split_eq, of_matches, abbreviated,
  of_short, of_value, of_split, of_dash, classify,
}

-- The values that an option can gather: one behind its `=`, or any that are arguments.
abbrev pub Gathered : {N : Type 0} → Dict (Action N) → List Text → Type 0
Gathered flags values =
    ((v : Text) × (values ≡ v ∷ [])) ⊎ All (λ v. classify flags v ≡ argument) values

module _ {N : Type 0} (flags : Dict (Action N)) (P : N → Type 0) where
  abbrev pub KeepsTaking : (Text → N → Option N) → Type 0
  KeepsTaking read = (v : Text) (n n' : N) → P n → read v n ≡ some n' → P n'

  abbrev pub KeepsGathering : (List Text → N → N) → Type 0
  KeepsGathering store =
      (values : List Text) (n : N) → P n → Gathered flags values → P (store values n)

  abbrev pub Keeps : Action N → Type 0
  Keeps exits = Unit
  Keeps (sets f) = (n : N) → P n → P (f n)
  Keeps (takes read) = KeepsTaking read
  Keeps (gathers store) = KeepsGathering store

  abbrev pub TokenKeeps : Token N → Type 0
  TokenKeeps (option action value) = Keeps action
  TokenKeeps _ = Unit

  abbrev pub AllKeep : Dict (Action N) → Type 0
  AllKeep d = All (λ e. Keeps e.1) d

  keep-AllKeep : (p : Text × Action N → Bool) (d : Dict (Action N)) → AllKeep d → AllKeep (keep p d)
  keep-AllKeep p [] h = tt
  keep-AllKeep p (e ∷ d) h = elim (Bool-cases (p e)) [
    | inl y ↦ rw y (h.0, keep-AllKeep p d h.1)
    | inr n ↦ rw n (keep-AllKeep p d h.1)
  ]

  abbrev pub KeepsIf : Option (Action N) → Type 0
  KeepsIf none = Unit
  KeepsIf (some action) = Keeps action

  lookup-KeepsIf : (k : Text) (d : Dict (Action N)) → AllKeep d → KeepsIf (lookup k d)
  unfolding lookup
  lookup-KeepsIf k [] h = tt
  lookup-KeepsIf k ((j, action) ∷ d) h = elim (Bool-cases (text_eq j k)) [
    | inl y ↦ rw y h.0
    | inr n ↦ rw n (lookup-KeepsIf k d h.1)
  ]

  module _ (all_keep : AllKeep flags) where
    of_matches-TokenKeeps :
        (d : Dict (Action N)) (value : Option Text) (tok : Text)
        → AllKeep d
        → TokenKeeps (of_matches d value tok)
    of_matches-TokenKeeps [] value tok h =
        elim (Bool-cases (is_negative_number tok || has_char 32 tok)) [
          | inl y ↦ rw y tt
          | inr n ↦ rw n tt
        ]
    of_matches-TokenKeeps ((flag, action) ∷ []) value tok h = h.0
    of_matches-TokenKeeps (first ∷ second ∷ rest) value tok h = tt

    of_short-TokenKeeps : (o : Option Text) (tok : Text) → TokenKeeps (of_short o flags tok)
    unfolding abbreviated
    of_short-TokenKeeps none tok =
        of_matches-TokenKeeps _ (split_eq tok).1 tok
          (keep-AllKeep (λ e. starts_with (split_eq tok).0 e.0) flags all_keep)
    of_short-TokenKeeps (some rest) tok = tt

    of_value-TokenKeeps :
        (o : Option (Action N)) (value tok : Text)
        → KeepsIf o
        → TokenKeeps (of_value o value flags tok)
    of_value-TokenKeeps none value tok h = of_short-TokenKeeps (strip_prefix (codes "-h") tok) tok
    of_value-TokenKeeps (some action) value tok h = h

    of_split-TokenKeeps : (p : Text × Option Text) (tok : Text) → TokenKeeps (of_split p flags tok)
    of_split-TokenKeeps (flag, none) tok = of_short-TokenKeeps (strip_prefix (codes "-h") tok) tok
    of_split-TokenKeeps (flag, some value) tok =
        of_value-TokenKeeps (lookup flag flags) value tok (lookup-KeepsIf flag flags all_keep)

    of_dash-TokenKeeps :
        (o : Option (Action N)) (tok : Text) → KeepsIf o → TokenKeeps (of_dash o flags tok)
    of_dash-TokenKeeps none tok h = elim (Bool-cases (text_eq tok (45 ∷ []))) [
      | inl y ↦ rw y tt
      | inr n ↦ rw n (of_split-TokenKeeps (split_eq tok) tok)
    ]
    of_dash-TokenKeeps (some action) tok h = h

    pub classify-TokenKeeps : (tok : Text) → TokenKeeps (classify flags tok)
    unfolding classify
    classify-TokenKeeps [] = tt
    classify-TokenKeeps (c ∷ s) = elim (Bool-cases (c == 45)) [
      | inl y ↦ rw y (of_dash-TokenKeeps _ (c ∷ s) (lookup-KeepsIf (c ∷ s) flags all_keep))
      | inr n ↦ rw n tt
    ]
