-- ===== src/Launcher/Release/Patches.antt =====
-- The first loop of `_patch` on the sections of a release file: the versions that are set.
use commons_operator.Prelude.{
  ◌≡◌, refl, sym, subst, ◌∙◌, false, Option, none, some, List, [], ◌∷◌, ◌++◌, map, append_assoc,
  append-nil, Text, codes, All, has_char, text_eq, arith, text_eq-cases, inl, inr, Bool-cases,
}
use commons_operator.Prelude.Dict.{Dict, lookup, keys}
use commons_operator.Exec.{ok}
use commons_operator.Launcher.{World}
use commons_operator.Launcher.Release.{find_operator, Patching, patch_line, patch_lines}
use commons_operator.Launcher.Release.Lines.{
  IsLine, is_in-newline, rstrip-newline, sub_value_version, IsLine-append,
}
use commons_operator.Launcher.Release.Sections.{
  header, version_line, sections, ended, chosen, override, IsFree, IsOwn, IsOther, IsProduct,
  IsPlainOperator,
}

keys-IsLine : (operators : Dict Text) → All IsPlainOperator operators → All IsLine (keys operators)
keys-IsLine [] h = tt
keys-IsLine ((op, version) ∷ rest) h = (h.0.0, keys-IsLine rest h.1)

lookup-IsPlain :
    (name : Text) (operators : Dict Text) (version : Text)
    → All IsPlainOperator operators
    → lookup name operators ≡ some version
    → IsLine version × (has_char 92 version ≡ false)
unfolding lookup
lookup-IsPlain name [] version h e = cc e
lookup-IsPlain name ((op, v) ∷ rest) version h e = elim (Bool-cases (text_eq op name)) [
  | inl y ↦
      let first : ◌≡◌ {A = Option Text} (some v) (some version) = rw y at e in
      let same : v ≡ version = cc first in
      subst (λ w. IsLine w × (has_char 92 w ≡ false)) same (h.0.1, h.0.2)
  | inr n ↦ lookup-IsPlain name rest version h.1 (rw n at e)
]

find_operator-free :
    (operators : Dict Text) (line : Text)
    → All IsLine (keys operators)
    → IsFree (keys operators) line
    → find_operator operators (line ++ 10 ∷ []) ≡ none
unfolding find_operator
find_operator-free [] line h f = refl
find_operator-free ((op, version) ∷ rest) line h f =
    rw (is_in-newline op line h.0) (ground (arith, find_operator-free rest line h.1))

abbrev found : Text → Option Text → Option (Text × Text)
found name none = none
found name (some version) = some (name, version)

find_operator-own :
    (operators : Dict Text) (name : Text)
    → All IsLine (keys operators)
    → IsOwn (keys operators) name
    → find_operator operators (header name ++ 10 ∷ []) ≡ found name (lookup name operators)
unfolding find_operator lookup
find_operator-own [] name h own = refl
find_operator-own ((op, version) ∷ rest) name h own =
    let e = is_in-newline op (header name) h.0 ∙ own.0 in
    elim (text_eq-cases op name) [
      | inl (y, same) ↦ rw (e, y, same)
      | inr (n, differ) ↦ rw (e, n, find_operator-own rest name h.1 own.1)
    ]

header-IsLine : (name : Text) → IsLine name → IsLine (header name)
header-IsLine name h =
    IsLine-append (codes "      ") (name ++ codes ":") refl (IsLine-append name (codes ":") h refl)

-- The variables of the loop between two sections.
abbrev pub between : List Text → List Text → Patching
between patched_ops patched_release = record {
  patch_version = [];
  patched_ops = patched_ops;
  patched_release = patched_release;
}

-- The names of the operators that were given a version.
abbrev pub hit : Option Text → Text → List Text
hit none name = []
hit (some version) name = name ∷ []

abbrev pub hits : Dict Text → Dict Text → List Text
hits operators [] = []
hits operators ((name, version) ∷ products) =
    hit (lookup name operators) name ++ hits operators products

module _ (world : World) (operators : Dict Text) (plain : All IsPlainOperator operators) where
  patch_free :
      (line : Text) (rest : List Text) (ops lines : List Text)
      → IsLine line
      → IsFree (keys operators) line
      → patch_lines world operators ((line ++ 10 ∷ []) ∷ rest) (between ops lines)
        ≡ patch_lines world operators rest (between ops (lines ++ line ∷ []))
  unfolding patch_lines patch_line
  patch_free line rest ops lines l f =
      rw (find_operator-free operators line (keys-IsLine operators plain) f)
        (rw (rstrip-newline line l))

  patch_version_line :
      (version old : Text) (rest : List Text) (ops lines : List Text)
      → IsLine version
      → has_char 92 version ≡ false
      → IsFree (keys operators) (version_line old)
      → IsLine old
      → patch_lines world operators
          ((version_line old ++ 10 ∷ []) ∷ rest)
          (record { patch_version = version; patched_ops = ops; patched_release = lines })
        ≡ patch_lines world operators rest
            (between ops (lines ++ version_line (chosen (some version) old) ∷ []))
  unfolding patch_lines patch_line
  patch_version_line [] old rest ops lines l b f lo =
      patch_free (version_line old) rest ops lines
        (IsLine-append (codes "        operatorVersion: ") old refl lo) f
  patch_version_line (c ∷ version) old rest ops lines l b f lo = rw b (
      rw (sub_value_version (c ∷ version) old) (
        rw (
          rstrip-newline (version_line (c ∷ version))
            (IsLine-append (codes "        operatorVersion: ") (c ∷ version) refl l))))

  -- The header of an operator, and what the line behind it becomes.
  patch_section :
      (name old : Text) (rest : List Text) (ops lines : List Text) (o : Option Text)
      → lookup name operators ≡ o
      → IsLine name
      → IsLine old
      → IsOwn (keys operators) name
      → IsFree (keys operators) (version_line old)
      → patch_lines world operators
          ((header name ++ 10 ∷ []) ∷ (version_line old ++ 10 ∷ []) ∷ rest)
          (between ops lines)
        ≡ patch_lines world operators rest (
            between (ops ++ hit o name) (lines ++ (header name ∷ version_line (chosen o old) ∷ [])))
  unfolding patch_lines patch_line
  patch_section name old rest ops lines none e ln lo own f =
      rw (find_operator-own operators name (keys-IsLine operators plain) own) (
        rw e (
          rw (rstrip-newline (header name) (header-IsLine name ln)) (
            patch_free (version_line old) rest ops (lines ++ header name ∷ [])
              (IsLine-append (codes "        operatorVersion: ") old refl lo) f
            ∙ (λ i. patch_lines world operators rest (
                between (sym (append-nil ops) i)
                  (append_assoc lines (header name ∷ []) (version_line old ∷ []) i))))))
  patch_section name old rest ops lines (some version) e ln lo own f =
      let (lv, b) = lookup-IsPlain name operators version plain e in
      rw (find_operator-own operators name (keys-IsLine operators plain) own) (
        rw e (
          rw (rstrip-newline (header name) (header-IsLine name ln)) (
            patch_version_line version old rest (ops ++ name ∷ []) (lines ++ header name ∷ []) lv b
              f lo
            ∙ (λ i. patch_lines world operators rest (
                between (ops ++ name ∷ []) (
                  append_assoc lines (header name ∷ [])
                    (version_line (chosen (some version) old) ∷ []) i))))))

  -- Lines that no operator occurs in, and then sections.
  patch_products :
      (skip_ops : List Text) (products : Dict Text) (ops lines : List Text)
      → All (IsProduct operators skip_ops) products
      → patch_lines world operators (ended (sections products)) (between ops lines)
        ≡ ok (
            between
              (ops ++ hits operators products)
              (lines ++ sections (map (override operators) products)))
  unfolding patch_lines
  patch_products skip_ops [] ops lines h =
      λ i. ok (between (sym (append-nil ops) i) (sym (append-nil lines) i))
  patch_products skip_ops ((name, old) ∷ products) ops lines h =
      let (ln, lo, own, own', f, f') = h.0 in
      let new = chosen (lookup name operators) old in
      patch_section name old (ended (sections products)) ops lines (lookup name operators) refl ln
        lo own f
      ∙ patch_products skip_ops products (ops ++ hit (lookup name operators) name)
          (lines ++ (header name ∷ version_line new ∷ [])) h.1
      ∙ (λ i. ok (
          between (append_assoc ops (hit (lookup name operators) name) (hits operators products) i)
            (append_assoc lines (header name ∷ version_line new ∷ [])
              (sections (map (override operators) products)) i)))

  pub patch_lines-sections :
      (skip_ops preamble : List Text) (products : Dict Text) (lines : List Text)
      → All (IsOther operators skip_ops) preamble
      → All (IsProduct operators skip_ops) products
      → patch_lines world operators (ended (preamble ++ sections products)) (between [] lines)
        ≡ ok (
            between
              (hits operators products)
              (lines ++ (preamble ++ sections (map (override operators) products))))
  patch_lines-sections skip_ops [] products lines o h = patch_products skip_ops products [] lines h
  patch_lines-sections skip_ops (line ∷ preamble) products lines o h =
      patch_free line (ended (preamble ++ sections products)) [] lines o.0.0 o.0.1
      ∙ patch_lines-sections skip_ops preamble products (lines ++ line ∷ []) o.1 h
      ∙ (λ i. ok (
          between (hits operators products) (
            append_assoc lines (line ∷ [])
              (preamble ++ sections (map (override operators) products)) i)))
