-- ===== src/Options.antt =====
-- Command lines as the standard library's `argparse` reads them, for parsers that have options and
-- no positional arguments: a machine that reads one argument after the other. It is argparse of
-- Python 3.14, the version that the workflows of the repository install.
pub mod Number
pub mod Pieces
pub mod Keeps
use commons_operator.Prelude.{
  ℕ, Bool, true, false, not, ◌||◌, Option, none, some, List, [], ◌∷◌, ◌++◌, Text, codes, keep,
  starts_with, has_char, text_eq, strip_prefix, ◌==◌, ◌≡◌, refl, sym, ◌∙◌, if◌then◌else◌,
}
use commons_operator.Prelude.Dict.{Dict, lookup}
use commons_operator.Options.Number.{is_negative_number}

-- What an option does to the namespace `N` that is filled.
pub data Action (N : Type 0) : Type 0 where
  -- `help` and `version`: print something and leave with 0.
  exits : Action N
  -- `store_true`
  sets : (N → N) → Action N
  -- One value, which its `type` may refuse.
  takes : (Text → N → Option N) → Action N
  -- `nargs="*"`
  gathers : (List Text → N → N) → Action N

-- How one argument of the command line is read. An option has the text behind its `=`, if there is
-- one; `attached` is `-h` with more behind it.
pub data Token (N : Type 0) : Type 0 where
  argument ambiguous unknown : Token N
  option : Action N → Option Text → Token N
  attached : Text → Token N

-- What an option still waits for.
pub data Pending (N : Type 0) : Type 0 where
  nothing : Pending N
  one : (Text → N → Option N) → Pending N
  many : (List Text → N → N) → List Text → Pending N

pub record State (N : Type 0) : Type 0 where
  pub names : N
  pub pending : Pending N
  -- Whether something was not recognised, and whether `--` was read.
  pub extras : Bool
  pub ended : Bool

-- The program goes on with what was parsed, or it leaves with a code.
pub data Parsed (A : Type 0) : Type 0 where
  parsed : A → Parsed A
  exit : ℕ → Parsed A

abbrev pub and_then : {A B : Type 0} → Parsed A → (A → Parsed B) → Parsed B
and_then (parsed a) f = f a
and_then (exit code) f = exit code

pub and_then_ext :
    {A B : Type 0} (p : Parsed A) {f g : A → Parsed B}
    → ((a : A) → f a ≡ g a)
    → and_then p f ≡ and_then p g
and_then_ext (parsed a) h = h a
and_then_ext (exit code) h = refl

pub and_then_assoc :
    {A B C : Type 0} (p : Parsed A) (f : A → Parsed B) (g : B → Parsed C)
    → and_then (and_then p f) g ≡ and_then p (λ a. and_then (f a) g)
and_then_assoc (parsed a) f g = refl
and_then_assoc (exit code) f g = refl

abbrev pub or_error : {A : Type 0} → Option A → Parsed A
or_error none = exit 2
or_error (some a) = parsed a

-- `text.partition("=")`
abbrev pub split_eq : Text → Text × Option Text
split_eq [] = ([], none)
split_eq (c ∷ s) = let rest = split_eq s in if c == 61 then ([], some s) else (c ∷ rest.0, rest.1)

-- The code that `-h` leaves with where `rest` is behind it in the same argument.
abbrev pub exit_attached : Text → ℕ
exit_attached [] = 0
exit_attached (c ∷ s) =
    let rest = exit_attached s in if c == 104 then rest else if c == 61 || c == 45 then 2 else 0

module _ {N : Type 0} where
  abbrev pub of_matches : Dict (Action N) → Option Text → Text → Token N
  of_matches [] value tok = if is_negative_number tok || has_char 32 tok then argument else unknown
  of_matches ((flag, action) ∷ []) value tok = option action value
  of_matches (first ∷ second ∷ rest) value tok = ambiguous

  -- An abbreviation: the options that start with what stands before the `=`.
  unfoldable pub abbreviated : Dict (Action N) → Text → Token N
  abbreviated flags tok =
      let (prefix, value) = split_eq tok in
      of_matches (keep (λ e. starts_with prefix e.0) flags) value tok

  -- An argument that starts with a dash and is no option as it stands; first what `-h` leaves of it.
  abbrev pub of_short : Option Text → Dict (Action N) → Text → Token N
  of_short none flags tok = abbreviated flags tok
  of_short (some rest) flags tok = attached rest

  abbrev pub of_value : Option (Action N) → Text → Dict (Action N) → Text → Token N
  of_value none value flags tok = of_short (strip_prefix (codes "-h") tok) flags tok
  of_value (some action) value flags tok = option action (some value)

  abbrev pub of_split : Text × Option Text → Dict (Action N) → Text → Token N
  of_split (flag, none) flags tok = of_short (strip_prefix (codes "-h") tok) flags tok
  of_split (flag, some value) flags tok = of_value (lookup flag flags) value flags tok

  abbrev pub of_dash : Option (Action N) → Dict (Action N) → Text → Token N
  of_dash none flags tok =
      if text_eq tok (45 ∷ []) then argument else of_split (split_eq tok) flags tok
  of_dash (some action) flags tok = option action none

  unfoldable pub classify : Dict (Action N) → Text → Token N
  classify flags [] = argument
  classify flags (c ∷ s) =
      if c == 45 then of_dash (lookup (c ∷ s) flags) flags (c ∷ s) else argument

  -- A value for the option that waits; without one it is not recognised.
  abbrev pub accept_as : Pending N → Text → State N → Parsed (State N)
  accept_as nothing text s = parsed (record s { extras = true })
  accept_as (one read) text s =
      and_then (or_error (read text s.names))
        (λ names. parsed (record s { names = names; pending = nothing }))
  accept_as (many store values) text s =
      parsed (record s { pending = many store (values ++ text ∷ []) })

  unfoldable pub accept : Text → State N → Parsed (State N)
  accept text s = accept_as s.pending text s

  -- The option that waits gets no more values.
  abbrev pub settle_as : Pending N → State N → Parsed (State N)
  settle_as nothing s = parsed s
  settle_as (one read) s = exit 2
  settle_as (many store values) s =
      parsed (record s { names = store values s.names; pending = nothing })

  unfoldable pub settle : State N → Parsed (State N)
  settle s = settle_as s.pending s

  unfoldable pub perform : Action N → Option Text → State N → Parsed (State N)
  perform exits none s = exit 0
  perform exits (some text) s = exit 2
  perform (sets f) none s = parsed (record s { names = f s.names })
  perform (sets f) (some text) s = exit 2
  perform (takes read) none s = parsed (record s { pending = one read })
  perform (takes read) (some text) s = accept_as (one read) text s
  perform (gathers store) none s = parsed (record s { pending = many store [] })
  perform (gathers store) (some text) s = parsed (record s { names = store (text ∷ []) s.names })

  unfoldable pub take_token : Text → Token N → State N → Parsed (State N)
  take_token text argument s = accept text s
  take_token text ambiguous s = exit 2
  take_token text unknown s = and_then (settle s) (λ t. parsed (record t { extras = true }))
  take_token text (option action value) s = and_then (settle s) (perform action value)
  take_token text (attached rest) s = and_then (settle s) (λ t. exit (exit_attached rest))

  -- Behind `--` there are only arguments.
  unfoldable pub step : Dict (Action N) → State N → Text → Parsed (State N)
  step flags s text =
      if s.ended
      then accept text s
      else if text_eq text (codes "--")
      then and_then (settle s) (λ t. parsed (record t { extras = true; ended = true }))
      else take_token text (classify flags text) s

  unfoldable pub run : Dict (Action N) → State N → List Text → Parsed (State N)
  run flags s [] = parsed s
  run flags s (text ∷ rest) = and_then (step flags s text) (λ t. run flags t rest)

  abbrev pub ready : N → State N
  ready names = record { names = names; pending = nothing; extras = false; ended = false }

  -- What is not recognised is an error at the end.
  unfoldable pub finish : State N → Parsed N
  finish s = and_then (settle s) (λ t. if t.extras then exit 2 else parsed t.names)

  unfoldable pub parse : Dict (Action N) → N → List Text → Parsed N
  unfolding run step take_token classify abbreviated lookup starts_with text_eq accept settle
      perform finish is_negative_number
  parse flags defaults argv = and_then (run flags (ready defaults) argv) finish

  -- The arguments are read from left to right.
  pub run-append :
      (flags : Dict (Action N)) (xs ys : List Text) (s : State N)
      → run flags s (xs ++ ys) ≡ and_then (run flags s xs) (λ t. run flags t ys)
  unfolding run
  run-append flags [] ys s = refl
  run-append flags (x ∷ xs) ys s =
      and_then_ext (step flags s x) (run-append flags xs ys)
      ∙ sym (and_then_assoc (step flags s x) (λ t. run flags t xs) (λ t. run flags t ys))
