-- ===== src/Args/Extra.antt =====
-- Which extra arguments a command line can give.
use commons_operator.Prelude.{◌≡◌, ◌∙◌, sym, ap, refl, subst, Option, none, some, List, Text, inr}
use commons_operator.Prelude.Int.{ℤ}
use commons_operator.Options.Number.{int_of}
use commons_operator.Options.{parsed}
use commons_operator.Options.Keeps.{Ensures_parsed, Gathered, KeepsTaking, AllKeep, parse-Ensures}
use commons_operator.Args.{Args, default_args}
use commons_operator.Args.CommandLine.{stored, options, parse_args}

abbrev pub ExtraGathered : Args → Type 0
ExtraGathered args = Gathered options args.extra_args

-- An option that leaves the extra arguments as they are.
same_extra :
    {V : Type 0} (o : Option V) (f : V → Args) (n n' : Args)
    → ((v : V) → (f v).extra_args ≡ n.extra_args)
    → stored o f ≡ some n'
    → n'.extra_args ≡ n.extra_args
same_extra none f n n' h e = cc e
same_extra (some v) f n n' h e = ap extra_of (sym e) ∙ h v
  where
    extra_of : Option Args → List Text
    extra_of none = n.extra_args
    extra_of (some a) = a.extra_args

ExtraGathered-stored :
    {V : Type 0} (o : Option V) (f : V → Args) (n n' : Args)
    → ((v : V) → (f v).extra_args ≡ n.extra_args)
    → ExtraGathered n
    → stored o f ≡ some n'
    → ExtraGathered n'
ExtraGathered-stored o f n n' h p e = subst (Gathered options) (sym (same_extra o f n n' h e)) p

keeps_number :
    (f : ℤ → Args → Args)
    → ((i : ℤ) (n : Args) → (f i n).extra_args ≡ n.extra_args)
    → KeepsTaking options ExtraGathered (λ v n. stored (int_of v) (λ i. f i n))
keeps_number f h v n n' p e = ExtraGathered-stored (int_of v) (λ i. f i n) n n' (λ i. h i n) p e

keeps_text :
    (f : Text → Args → Args)
    → ((v : Text) (n : Args) → (f v n).extra_args ≡ n.extra_args)
    → KeepsTaking options ExtraGathered (λ v n. some (f v n))
keeps_text f h v n n' p e = ExtraGathered-stored (some v) (λ w. f w n) n n' (λ w. h w n) p e

options-Keep : AllKeep options ExtraGathered options
options-Keep = (
  tt,
  (
    tt,
    (
      keeps_number (λ i n. record n { parallel = i }) (λ i n. refl),
      (
        keeps_text (λ v n. record n { venv = some v }) (λ v n. refl),
        (
          (λ values n p g. g),
          (
            keeps_number (λ i n. record n { attempts_parallel = i }) (λ i n. refl),
            (
              keeps_number (λ i n. record n { attempts_serial = i }) (λ i n. refl),
              (
                (λ n p. p),
                (
                  keeps_text (λ v n. record n { output_dir = v }) (λ v n. refl),
                  (
                    keeps_text (λ v n. record n { resume = some v }) (λ v n. refl),
                    (keeps_text (λ v n. record n { rerun_failed = some v }) (λ v n. refl), tt),
                  ),
                ),
              ),
            ),
          ),
        ),
      ),
    ),
  ),
)

-- Of a command line that scripts/auto-retry-tests.py accepts, either there is one extra argument,
-- or none of the extra arguments, taken by itself, is read as an option.
pub parse_args-Gathered :
    (argv : List Text) (args : Args)
    → parse_args argv ≡ parsed args
    → Gathered options args.extra_args
unfolding parse_args
parse_args-Gathered argv args e =
    Ensures_parsed ExtraGathered e
      (parse-Ensures options ExtraGathered options-Keep default_args argv (inr tt))
