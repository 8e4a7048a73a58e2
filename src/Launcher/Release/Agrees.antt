-- ===== src/Launcher/Release/Agrees.antt =====
-- The contents that `_patch` writes are those that the sections describe.
use commons_operator.Prelude.{
  ◌≡◌, refl, sym, ap, subst, ◌∙◌, Bool, true, false, ◌&&◌, ◌||◌, Option, none, some, List, [], ◌∷◌,
  ◌++◌, map, Text, codes, any, any-append, all, All, join, text_eq, text_eq_refl, text_eq-cases,
  arith, ◌≢◌, ◌⊎◌, or_right, if◌then◌else◌, inl, inr, Bool-cases,
}
use mathlib.Core.Path.{ap₂}
use commons_operator.Prelude.Dict.{Dict, lookup, keys}
use commons_operator.Exec.{ok, raised, test_runner}
use commons_operator.Launcher.{World}
use commons_operator.Launcher.Release.{and_then, covered, filter_release, patched_contents}
use commons_operator.Launcher.Release.Sections.{
  sections, ended, override, released, IsFree, IsOther, IsProduct, IsPlainOperator,
}
use commons_operator.Launcher.Release.Patches.{hit, hits, patch_lines-sections}
use commons_operator.Launcher.Release.Filters.{
  IsSection, is_skipped, skip_hits, filter_lines-sections,
}

abbrev pub is_known : Dict Text → Text → Bool
is_known products op = any (λ product. text_eq product.0 op) products

abbrev IsKey : Dict Text → Text → Type 0
IsKey operators op = (version : Text) × (lookup op operators ≡ some version)

IsKey-cons : (e : Text × Text) (rest : Dict Text) (op : Text) → IsKey rest op → IsKey (e ∷ rest) op
unfolding lookup
IsKey-cons (name, version) rest op (v, p) = elim (Bool-cases (text_eq name op)) [
  | inl y ↦ (version, rw y)
  | inr n ↦ (v, rw n p)
]

All-map : (P Q : Text → Type 0) → ((x : Text) → P x → Q x) → (xs : List Text) → All P xs → All Q xs
All-map P Q f [] h = tt
All-map P Q f (x ∷ xs) h = (f x h.0, All-map P Q f xs h.1)

keys-IsKey : (operators : Dict Text) → All (IsKey operators) (keys operators)
unfolding lookup
keys-IsKey [] = tt
keys-IsKey ((name, version) ∷ rest) = (
  (version, rw (text_eq_refl name)),
  All-map (IsKey rest) (IsKey ((name, version) ∷ rest)) (IsKey-cons (name, version) rest)
      (keys rest) (keys-IsKey rest),
)

all_agree : (p q : Text → Bool) (xs : List Text) → All (λ x. p x ≡ q x) xs → all p xs ≡ all q xs
all_agree p q [] h = refl
all_agree p q (x ∷ xs) h = rw (h.0, all_agree p q xs h.1)

-- A name among what one product adds.
any-hit :
    (op name : Text) (o : Option Text)
    → (text_eq name op ≡ true → (version : Text) × (o ≡ some version))
    → any (λ x. text_eq x op) (hit o name) ≡ text_eq name op
any-hit op name none h = elim (Bool-cases (text_eq name op)) [
  | inl y ↦ cc ((h y).1)
  | inr n ↦ sym n
]
any-hit op name (some version) h = ground arith

any-hits :
    (operators : Dict Text) (op : Text) (products : Dict Text)
    → IsKey operators op
    → any (λ x. text_eq x op) (hits operators products) ≡ is_known products op
any-hits operators op [] k = refl
any-hits operators op ((name, old) ∷ products) k =
    any-append (λ x. text_eq x op) (hit (lookup name operators) name) (hits operators products)
    ∙ ap₂ (λ a b. a || b) (any-hit op name (lookup name operators) (keyed (text_eq-cases name op)))
        (any-hits operators op products k)
  where
    keyed :
        (text_eq name op ≡ true) × (name ≡ op) ⊎ (text_eq name op ≡ false) × (name ≢ op)
        → text_eq name op ≡ true
        → IsKey operators name
    keyed (inl (y, same)) e = subst (IsKey operators) (sym same) k
    keyed (inr (n, differ)) e = cc (n, e)

covered-hits :
    (operators products : Dict Text)
    → covered (keys operators) (hits operators products) ≡ all (is_known products) (keys operators)
unfolding covered
covered-hits operators products =
    all_agree (λ op. any (λ x. text_eq x op) (hits operators products)) (is_known products)
      (keys operators)
      (All-map (IsKey operators)
        (λ op. any (λ x. text_eq x op) (hits operators products) ≡ is_known products op)
        (λ op k. any-hits operators op products k) (keys operators) (keys-IsKey operators))

-- The same for the operators that are left out.
any-skip_hit :
    (op name : Text) (b : Bool)
    → (text_eq name op ≡ true → b ≡ true)
    → any (λ x. text_eq x op) (if b then name ∷ [] else []) ≡ text_eq name op
any-skip_hit op name true h = ground arith
any-skip_hit op name false h = elim (Bool-cases (text_eq name op)) [
  | inl y ↦ cc (h y)
  | inr n ↦ sym n
]

any-skip_hits :
    (skip_ops : List Text) (op : Text) (products : Dict Text)
    → is_skipped skip_ops op ≡ true
    → any (λ x. text_eq x op) (skip_hits skip_ops products) ≡ is_known products op
any-skip_hits skip_ops op [] k = refl
any-skip_hits skip_ops op ((name, version) ∷ products) k =
    any-append (λ x. text_eq x op) (if is_skipped skip_ops name then name ∷ [] else [])
      (skip_hits skip_ops products)
    ∙ ap₂ (λ a b. a || b)
        (any-skip_hit op name (is_skipped skip_ops name) (skipped (text_eq-cases name op)))
        (any-skip_hits skip_ops op products k)
  where
    skipped :
        (text_eq name op ≡ true) × (name ≡ op) ⊎ (text_eq name op ≡ false) × (name ≢ op)
        → text_eq name op ≡ true
        → is_skipped skip_ops name ≡ true
    skipped (inl (y, same)) e = subst (λ n. is_skipped skip_ops n ≡ true) (sym same) k
    skipped (inr (n, differ)) e = cc (n, e)

skipped_self : (skip_ops : List Text) → All (λ op. is_skipped skip_ops op ≡ true) skip_ops
skipped_self [] = tt
skipped_self (x ∷ xs) = (
  ap (λ b. b || is_skipped xs x) (text_eq_refl x),
  All-map (λ op. is_skipped xs op ≡ true) (λ op. is_skipped (x ∷ xs) op ≡ true)
      (λ op e. or_right (text_eq x op) (is_skipped xs op) e) xs (skipped_self xs),
)

is_known-override :
    (operators products : Dict Text) (op : Text)
    → is_known (map (override operators) products) op ≡ is_known products op
is_known-override operators [] op = refl
is_known-override operators ((name, version) ∷ products) op =
    rw (is_known-override operators products op)

covered-skip_hits :
    (operators : Dict Text) (skip_ops : List Text) (products : Dict Text)
    → covered skip_ops (skip_hits skip_ops (map (override operators) products))
      ≡ all (is_known products) skip_ops
unfolding covered
covered-skip_hits operators skip_ops products =
    let given = map (override operators) products in
    all_agree (λ op. any (λ x. text_eq x op) (skip_hits skip_ops given)) (is_known products)
      skip_ops
      (All-map (λ op. is_skipped skip_ops op ≡ true)
        (λ op. any (λ x. text_eq x op) (skip_hits skip_ops given) ≡ is_known products op)
        (λ op k. any-skip_hits skip_ops op given k ∙ is_known-override operators products op)
        skip_ops (skipped_self skip_ops))

override-IsSection :
    (operators : Dict Text) (skip_ops : List Text) (products : Dict Text)
    → All (IsProduct operators skip_ops) products
    → All (IsSection skip_ops) (map (override operators) products)
override-IsSection operators skip_ops [] h = tt
override-IsSection operators skip_ops ((name, old) ∷ products) h =
    let (ln, lo, own, own', f, f') = h.0 in
    ((own', f'), override-IsSection operators skip_ops products h.1)

preamble-IsFree :
    (operators : Dict Text) (skip_ops : List Text) (preamble : List Text)
    → All (IsOther operators skip_ops) preamble
    → All (IsFree skip_ops) preamble
preamble-IsFree operators skip_ops [] h = tt
preamble-IsFree operators skip_ops (line ∷ preamble) h =
    (h.0.2, preamble-IsFree operators skip_ops preamble h.1)

if-if :
    {A : Type 0} (a b : Bool) (x y : A)
    → (if a then (if b then x else y) else y) ≡ (if a && b then x else y)
if-if true b x y = refl
if-if false b x y = refl

module _ (world : World) (operators : Dict Text) (skip_ops preamble : List Text)
    (products : Dict Text) where
  abbrev pub released_text : Text
  released_text = join (codes "\n") (preamble ++ sections (released operators skip_ops products))

  filter_release-sections :
      All (IsOther operators skip_ops) preamble
      → All (IsProduct operators skip_ops) products
      → filter_release skip_ops (preamble ++ sections (map (override operators) products))
        ≡ (if all (is_known products) skip_ops then ok released_text else raised test_runner)
  unfolding filter_release
  filter_release-sections o h =
      ap
        (λ f.
          if covered skip_ops f.valid_skip_ops
          then ok (join (codes "\n") f.release_contents)
          else raised test_runner)
        (filter_lines-sections skip_ops preamble (map (override operators) products) []
          (preamble-IsFree operators skip_ops preamble o)
          (override-IsSection operators skip_ops products h))
      ∙ ap (λ b. if b then ok released_text else raised test_runner)
          (covered-skip_hits operators skip_ops products)

  -- Where a release file has some lines in which no name of the command line occurs, and then a
  -- section for each operator, whose header has no name of the command line in it but its own, and
  -- whose version has none before or after it is set; and the names and versions of the command
  -- line have no newlines and the versions no backslash: if each name is that of some operator, the
  -- file that is written has the same lines and, in their order, the sections of the operators that
  -- are not to be skipped, with the versions asked for, where one was that is not the empty text.
  -- Otherwise a TestRunnerException is raised.
  pub patched_contents-released :
      All IsPlainOperator operators
      → All (IsOther operators skip_ops) preamble
      → All (IsProduct operators skip_ops) products
      → patched_contents world operators skip_ops (ended (preamble ++ sections products)) ≡ (
          if all (is_known products) (keys operators) && all (is_known products) skip_ops
          then ok released_text
          else raised test_runner)
  unfolding patched_contents
  patched_contents-released plain o h =
      ap
        (λ r. and_then r (λ p.
          if covered (keys operators) p.patched_ops
          then filter_release skip_ops p.patched_release
          else raised test_runner))
        (patch_lines-sections world operators plain skip_ops preamble products [] o h)
      ∙ ap₂ (λ b r. if b then r else raised test_runner) (covered-hits operators products)
          (filter_release-sections o h)
      ∙ if-if (all (is_known products) (keys operators)) (all (is_known products) skip_ops)
          (ok released_text) (raised test_runner)
