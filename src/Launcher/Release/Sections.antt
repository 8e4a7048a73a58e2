-- ===== src/Launcher/Release/Sections.antt =====
-- What a release file is about: lines, and then one section for each operator with its version.
-- The releases that the options ask for, described on the sections.
use commons_operator.Prelude.{
  ◌≡◌, Bool, false, not, Option, some, List, [], ◌∷◌, ◌++◌, map, Text, codes, any, keep, All,
  has_char, is_in, text_eq,
}
use commons_operator.Launcher.Release.Lines.{IsLine}
use commons_operator.Prelude.Dict.{Dict, lookup, keys}

abbrev pub header : Text → Text
header name = codes "      " ++ (name ++ codes ":")

abbrev pub version_line : Text → Text
version_line version = codes "        operatorVersion: " ++ version

abbrev pub sections : Dict Text → List Text
sections [] = []
sections ((name, version) ∷ products) = header name ∷ version_line version ∷ sections products

-- The lines as they are read, with their newlines.
abbrev pub ended : List Text → List Text
ended lines = map (λ line. line ++ 10 ∷ []) lines

-- The version that was asked for, unless it is the empty text.
abbrev pub chosen : Option Text → Text → Text
chosen (some (c ∷ version)) old = c ∷ version
chosen _ old = old

abbrev pub override : Dict Text → Text × Text → Text × Text
override operators (name, version) = (name, chosen (lookup name operators) version)

abbrev pub is_kept : List Text → Text × Text → Bool
is_kept skip_ops product = not (any (λ op. text_eq op product.0) skip_ops)

-- The operators of the new release.
abbrev pub released : Dict Text → List Text → Dict Text → Dict Text
released operators skip_ops products = keep (is_kept skip_ops) (map (override operators) products)

-- None of the names occurs in the line.
abbrev pub IsFree : List Text → Text → Type 0
IsFree names line = any (λ op. is_in op line) names ≡ false

-- Of the names only the operator's own occurs in its header.
abbrev pub IsOwn : List Text → Text → Type 0
IsOwn names name = All (λ op. is_in op (header name) ≡ text_eq op name) names

abbrev pub IsOther : Dict Text → List Text → Text → Type 0
IsOther operators skip_ops line = IsLine line × IsFree (keys operators) line × IsFree skip_ops line

abbrev pub IsProduct : Dict Text → List Text → Text × Text → Type 0
IsProduct operators skip_ops product =
    IsLine product.0
    × IsLine product.1
    × IsOwn (keys operators) product.0
    × IsOwn skip_ops product.0
    × IsFree (keys operators) (version_line product.1)
    × IsFree skip_ops (version_line (override operators product).1)

-- A name and a version from the command line: no newlines, and no backslash in the version.
abbrev pub IsPlainOperator : Text × Text → Type 0
IsPlainOperator operator = IsLine operator.0 × IsLine operator.1 × (has_char 92 operator.1 ≡ false)
