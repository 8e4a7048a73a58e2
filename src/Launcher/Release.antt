-- ===== src/Launcher/Release.antt =====
-- `release_file` of scripts/run-tests: the copy of tests/release.yaml with other versions and
-- without some operators.
pub mod Sections
pub mod Lines
pub mod Patches
pub mod Filters
pub mod Agrees
use commons_operator.Prelude.{
  ℕ, Bool, true, false, not, ◌&&◌, Option, none, some, List, [], ◌∷◌, ◌++◌, map, Text, codes,
  has_char, text_eq, is_in, any, all, join, ◌==◌, if◌then◌else◌,
}
use commons_operator.Prelude.Dict.{Dict, keys}
use commons_operator.Exec.{Result, ok, raised, test_runner}
use commons_operator.Newline.{readlines}
use commons_operator.Launcher.{World}

abbrev pub and_then : {A B : Type 0} → Result A → (A → Result B) → Result B
and_then (ok a) f = f a
and_then (raised e) f = raised e

-- `re.sub(":.+$", new, line)`, for one line: the first colon with something behind it, up to the
-- end of the line.
abbrev pub has_more : Text → Bool
has_more [] = false
has_more (c ∷ s) = not (c == 10)

unfoldable pub sub_value : Text → Text → Text
sub_value new [] = []
sub_value new (c ∷ s) =
    let rest = sub_value new s in
    if c == 58 && has_more s then new ++ (if has_char 10 s then 10 ∷ [] else []) else c ∷ rest

-- `line.rstrip("\n")`
abbrev pub strip_onto : ℕ → Text → Text
strip_onto c [] = if c == 10 then [] else c ∷ []
strip_onto c (d ∷ s) = c ∷ d ∷ s

unfoldable pub rstrip_newlines : Text → Text
rstrip_newlines [] = []
rstrip_newlines (c ∷ s) = strip_onto c (rstrip_newlines s)

-- The replacement for a version.
abbrev pub replacement : World → Text → Result Text
replacement world version =
    if has_char 92 version
    then world.template (codes ": " ++ version)
    else ok (codes ": " ++ version)

-- The first operator that occurs in the line.
unfoldable pub find_operator : Dict Text → Text → Option (Text × Text)
find_operator [] line = none
find_operator ((op, version) ∷ rest) line =
    if is_in op line then some (op, version) else find_operator rest line

-- The variables of the first loop.
pub record Patching : Type 0 where
  pub patch_version : Text
  pub patched_ops : List Text
  pub patched_release : List Text

abbrev pub push : Text → Patching → Patching
push line p = record p { patched_release = p.patched_release ++ rstrip_newlines line ∷ [] }

abbrev pub patch_found : Option (Text × Text) → Text → Patching → Patching
patch_found none line p = push line p
patch_found (some (op, version)) line p =
    push line (record p { patch_version = version; patched_ops = p.patched_ops ++ op ∷ [] })

-- One round: a line behind that of an operator gets its version. The empty text is no version.
abbrev pub patch_as : World → Dict Text → Text → Text → Patching → Result Patching
patch_as world operators [] line p = ok (patch_found (find_operator operators line) line p)
patch_as world operators (c ∷ version) line p =
    and_then (replacement world (c ∷ version))
      (λ new. ok (push (sub_value new line) (record p { patch_version = [] })))

unfoldable pub patch_line : World → Dict Text → Text → Patching → Result Patching
patch_line world operators line p = patch_as world operators p.patch_version line p

unfoldable pub patch_lines : World → Dict Text → List Text → Patching → Result Patching
patch_lines world operators [] p = ok p
patch_lines world operators (line ∷ rest) p =
    and_then (patch_line world operators line p) (λ q. patch_lines world operators rest q)

-- The variables of the second loop; a line is left out where `skip_lines` is not 0, and then it is 0.
pub record Filtering : Type 0 where
  pub skip_line : Bool
  pub valid_skip_ops : List Text
  pub release_contents : List Text

unfoldable pub find_skipped : List Text → Text → Option Text
find_skipped [] line = none
find_skipped (op ∷ rest) line = if is_in op line then some op else find_skipped rest line

abbrev pub filter_found : Option Text → Text → Filtering → Filtering
filter_found none line f = record f { release_contents = f.release_contents ++ line ∷ [] }
filter_found (some op) line f = record f {
  skip_line = true;
  valid_skip_ops = f.valid_skip_ops ++ op ∷ [];
}

unfoldable pub filter_line : List Text → Text → Filtering → Filtering
filter_line skip_ops line f =
    if f.skip_line
    then record f { skip_line = false }
    else filter_found (find_skipped skip_ops line) line f

unfoldable pub filter_lines : List Text → List Text → Filtering → Filtering
filter_lines skip_ops [] f = f
filter_lines skip_ops (line ∷ rest) f = filter_lines skip_ops rest (filter_line skip_ops line f)

-- Whether nothing is left of the difference of the two sets.
unfoldable pub covered : List Text → List Text → Bool
covered names found = all (λ op. any (λ x. text_eq x op) found) names

abbrev pub no_patches : Patching
no_patches = record { patch_version = []; patched_ops = []; patched_release = [] }

abbrev pub no_filter : Filtering
no_filter = record { skip_line = false; valid_skip_ops = []; release_contents = [] }

-- The second part of `_patch`, on the lines that the first one leaves.
unfoldable pub filter_release : List Text → List Text → Result Text
filter_release skip_ops patched_release =
    let f = filter_lines skip_ops patched_release no_filter in
    if covered skip_ops f.valid_skip_ops
    then ok (join (codes "\n") f.release_contents)
    else raised test_runner

-- What `_patch` writes for the lines of tests/release.yaml.
unfoldable pub patched_contents : World → Dict Text → List Text → List Text → Result Text
unfolding patch_lines patch_line sub_value rstrip_newlines find_operator filter_release filter_lines
    filter_line find_skipped covered
patched_contents world operators skip_ops lines =
    and_then (patch_lines world operators lines no_patches) λ p.
      if covered (keys operators) p.patched_ops
      then filter_release skip_ops p.patched_release
      else raised test_runner
