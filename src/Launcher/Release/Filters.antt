-- ===== src/Launcher/Release/Filters.antt =====
-- The second loop of `_patch` on the sections of a release file: the operators that are left out.
use commons_operator.Prelude.{
  ◌≡◌, refl, sym, ap, ◌∙◌, Bool, true, false, none, some, List, [], ◌∷◌, ◌++◌, append_assoc,
  append-nil, Text, any, keep, All, text_eq, text_eq-cases, arith, if◌then◌else◌, inl, inr,
  Bool-cases,
}
use commons_operator.Prelude.Dict.{Dict}
use commons_operator.Launcher.Release.{
  Filtering, find_skipped, filter_found, filter_line, filter_lines,
}
use commons_operator.Launcher.Release.Sections.{
  header, version_line, sections, is_kept, IsFree, IsOwn,
}

abbrev pub IsSection : List Text → Text × Text → Type 0
IsSection skip_ops product = IsOwn skip_ops product.0 × IsFree skip_ops (version_line product.1)

-- The variables of the loop between two sections.
abbrev pub between : List Text → List Text → Filtering
between valid_skip_ops release_contents = record {
  skip_line = false;
  valid_skip_ops = valid_skip_ops;
  release_contents = release_contents;
}

abbrev pub is_skipped : List Text → Text → Bool
is_skipped skip_ops name = any (λ op. text_eq op name) skip_ops

abbrev pub skip_hits : List Text → Dict Text → List Text
skip_hits skip_ops [] = []
skip_hits skip_ops ((name, version) ∷ products) =
    (if is_skipped skip_ops name then name ∷ [] else []) ++ skip_hits skip_ops products

find_skipped-free :
    (skip_ops : List Text) (line : Text) → IsFree skip_ops line → find_skipped skip_ops line ≡ none
unfolding find_skipped
find_skipped-free [] line f = refl
find_skipped-free (op ∷ rest) line f = ground (arith, find_skipped-free rest line)

find_skipped-own :
    (skip_ops : List Text) (name : Text)
    → IsOwn skip_ops name
    → find_skipped skip_ops (header name) ≡ (if is_skipped skip_ops name then some name else none)
unfolding find_skipped
find_skipped-own [] name own = refl
find_skipped-own (op ∷ rest) name own = elim (text_eq-cases op name) [
  | inl (y, same) ↦ rw own.0 (rw (y, same))
  | inr (n, differ) ↦ rw own.0 (rw n (find_skipped-own rest name own.1))
]

module _ (skip_ops : List Text) where
  filter_free :
      (line : Text) (rest : List Text) (valid lines : List Text)
      → IsFree skip_ops line
      → filter_lines skip_ops (line ∷ rest) (between valid lines)
        ≡ filter_lines skip_ops rest (between valid (lines ++ line ∷ []))
  unfolding filter_lines filter_line
  filter_free line rest valid lines f =
      ap (λ o. filter_lines skip_ops rest (filter_found o line (between valid lines)))
        (find_skipped-free skip_ops line f)

  -- A section is left out with both of its lines, or it stays.
  filter_section :
      (name version : Text) (rest valid lines : List Text) (b : Bool)
      → is_skipped skip_ops name ≡ b
      → IsSection skip_ops (name, version)
      → filter_lines skip_ops (header name ∷ version_line version ∷ rest) (between valid lines)
        ≡ filter_lines skip_ops rest (
            between
              (valid ++ (if b then name ∷ [] else []))
              (lines ++ (if b then [] else header name ∷ version_line version ∷ [])))
  unfolding filter_lines filter_line
  filter_section name version rest valid lines true e s =
      let found = find_skipped-own skip_ops name s.0 ∙ ap (λ b. if b then some name else none) e in
      ap
        (λ o.
          filter_lines skip_ops (version_line version ∷ rest)
            (filter_found o (header name) (between valid lines)))
        found
      ∙ (λ i. filter_lines skip_ops rest (between (valid ++ name ∷ []) (sym (append-nil lines) i)))
  filter_section name version rest valid lines false e s =
      let found = find_skipped-own skip_ops name s.0 ∙ ap (λ b. if b then some name else none) e in
      ap
        (λ o.
          filter_lines skip_ops (version_line version ∷ rest)
            (filter_found o (header name) (between valid lines)))
        found
      ∙ filter_free (version_line version) rest valid (lines ++ header name ∷ []) s.1
      ∙ (λ i. filter_lines skip_ops rest (
          between (sym (append-nil valid) i)
            (append_assoc lines (header name ∷ []) (version_line version ∷ []) i)))

  sections-keep :
      (name version : Text) (products : Dict Text)
      → sections (keep (is_kept skip_ops) ((name, version) ∷ products))
        ≡ (if is_skipped skip_ops name then [] else header name ∷ version_line version ∷ [])
          ++ sections (keep (is_kept skip_ops) products)
  sections-keep name version products = elim (Bool-cases (is_skipped skip_ops name)) [
    | inl y ↦ rw y refl
    | inr n ↦ rw n refl
  ]

  filter_products :
      (products : Dict Text) (valid lines : List Text)
      → All (IsSection skip_ops) products
      → filter_lines skip_ops (sections products) (between valid lines)
        ≡ between
            (valid ++ skip_hits skip_ops products)
            (lines ++ sections (keep (is_kept skip_ops) products))
  unfolding filter_lines
  filter_products [] valid lines h =
      λ i. between (sym (append-nil valid) i) (sym (append-nil lines) i)
  filter_products ((name, version) ∷ products) valid lines h =
      let b = is_skipped skip_ops name in
      let left = if b then name ∷ [] else [] in
      let kept = if b then [] else header name ∷ version_line version ∷ [] in
      filter_section name version (sections products) valid lines b refl h.0
      ∙ filter_products products (valid ++ left) (lines ++ kept) h.1
      ∙ (λ i. between (append_assoc valid left (skip_hits skip_ops products) i) (
          (append_assoc lines kept (sections (keep (is_kept skip_ops) products))
              ∙ ap (λ t. lines ++ t) (sym (sections-keep name version products)))
            i))

  pub filter_lines-sections :
      (preamble : List Text) (products : Dict Text) (lines : List Text)
      → All (IsFree skip_ops) preamble
      → All (IsSection skip_ops) products
      → filter_lines skip_ops (preamble ++ sections products) (between [] lines)
        ≡ between
            (skip_hits skip_ops products)
            (lines ++ (preamble ++ sections (keep (is_kept skip_ops) products)))
  filter_lines-sections [] products lines o h = filter_products products [] lines h
  filter_lines-sections (line ∷ preamble) products lines o h =
      filter_free line (preamble ++ sections products) [] lines o.0
      ∙ filter_lines-sections preamble products (lines ++ line ∷ []) o.1 h
      ∙ (λ i. between (skip_hits skip_ops products) (
          append_assoc lines (line ∷ []) (preamble ++ sections (keep (is_kept skip_ops) products))
            i))
