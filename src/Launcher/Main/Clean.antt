-- ===== src/Launcher/Main/Clean.antt =====
-- The temporary file does not stay.
use commons_operator.Prelude.{
  ◌≡◌, refl, ap, ◌∙◌, true, not, none, List, [], ◌∷◌, Text, codes, drop, is_in, keep, text_eq,
  text_eq_refl, Bool-cases, inl, inr,
}
use commons_operator.Prelude.Dict.{Dict, lookup, insert}
use commons_operator.Exec.{Exec, Result, ok, raised, ◌>>=◌}
use commons_operator.Options.{Parsed, parsed, exit}
use commons_operator.Launcher.{World, Session}
use commons_operator.Launcher.Arguments.{Namespace, parse_args}
use commons_operator.Launcher.Steps.{have_requirements, maybe_install_release, gen_tests}
use commons_operator.Launcher.Steps.Keeps.{
  Same, then_Same, if-Same, pure-Same, have_requirements-Same, maybe_install_release-Same,
  gen_tests-Same, run_tests-Same,
}
use commons_operator.Launcher.Main.{
  contents_for, make_file, lift, write_file, patch, remove_patched, finally, with_release_file,
  run_steps, after_parsing, main,
}

-- What was put under a new name and is removed leaves what was there.
pub keep-insert :
    (path contents : Text) (files : Dict Text)
    → lookup path files ≡ none
    → keep (λ e. not (text_eq e.0 path)) (insert path contents files) ≡ files
unfolding lookup insert
keep-insert path contents [] h = rw (text_eq_refl path)
keep-insert path contents ((name, text) ∷ files) h = elim (Bool-cases (text_eq name path)) [
  | inl y ↦ cc (rw y at h)
  | inr n ↦ rw n (rw n (rw (keep-insert path contents files (rw n at h))))
]

-- What the world does with the temporary file: it can be written and removed, and has a new name
-- with the prefix in it.
pub record IsTidy (world : World) (files : Dict Text) : Type 0 where
  pub writes : world.writable ≡ true
  pub removes : world.removable ≡ true
  pub named : (path : Text) → world.temporary ≡ ok path → is_in (codes "patched") path ≡ true
  pub is_new : (path : Text) → world.temporary ≡ ok path → lookup path files ≡ none

module _ (world : World) (files : Dict Text) (tidy : IsTidy world files) where
  -- The rest of `with` once the file is made.
  rest_of_with : (Text → Exec Session (Unit {0})) → Text → Exec Session (Unit {0})
  rest_of_with body path = finally (body path) (remove_patched world path)

  remove-files :
      (path contents : Text) (s : Session)
      → world.temporary ≡ ok path
      → s.files ≡ insert path contents files
      → (remove_patched world path s).1.files ≡ files
  remove-files path contents s t e = rw (tidy.named path t) (
      rw tidy.removes (
        ap (λ (d : Dict Text). keep (λ e. not (text_eq e.0 path)) d) e
        ∙ keep-insert path contents files (tidy.is_new path t)))

  made-files :
      (body : Text → Exec Session (Unit {0}))
      → ((fs : Dict Text) (path : Text) → Same world fs (body path))
      → (r : Result Text) (contents : Text) (s : Session) → world.temporary ≡ r
      → s.files ≡ files
      → ((make_file r true contents >>= rest_of_with body) s).1.files ≡ files
  unfolding rest_of_with
  made-files body keeps (raised x) contents s t e = e
  made-files body keeps (ok path) contents s t e = remove-files path contents _ t (
      keeps (insert path contents files) path (write_file path contents s)
        (ap (insert path contents) e))

  contents-files :
      (body : Text → Exec Session (Unit {0}))
      → ((fs : Dict Text) (path : Text) → Same world fs (body path))
      → (c : Result Text) (s : Session) → s.files ≡ files
      → ((lift c >>= (λ contents. make_file world.temporary true contents) >>= rest_of_with body)
          s).1.files
        ≡ files
  contents-files body keeps (raised x) s e = e
  contents-files body keeps (ok contents) s e =
      made-files body keeps world.temporary contents s refl e

  with_release_file-Same :
      (operators : Dict Text) (skip_ops : List Text) (body : Text → Exec Session (Unit {0}))
      → ((fs : Dict Text) (path : Text) → Same world fs (body path))
      → Same world files (with_release_file world operators skip_ops body)
  unfolding with_release_file patch rest_of_with
  with_release_file-Same operators skip_ops body keeps s e =
      rw tidy.writes (contents-files body keeps (contents_for world operators skip_ops) s e)

  run_steps-Same : (opts : Namespace) → Same world files (run_steps world opts)
  unfolding run_steps
  run_steps-Same opts =
      then_Same world files (have_requirements world) _ (have_requirements-Same world files) λ u.
        then_Same world files (gen_tests world opts.test_suite opts.namespace opts.work_dir) _
          (gen_tests-Same world files opts.test_suite opts.namespace opts.work_dir)
          λ v.
            then_Same world files
              (with_release_file world opts.operator opts.skip_operator
                (λ f. maybe_install_release world opts.skip_release f opts.listener_class_preset))
              _
              (with_release_file-Same opts.operator opts.skip_operator _ (λ fs f.
                maybe_install_release-Same world fs opts.skip_release f opts.listener_class_preset))
              λ w. if-Same world files opts.skip_tests _ _ (pure-Same world files) (
                run_tests-Same world files opts.test opts.parallel opts.namespace opts.skip_delete
                  opts.work_dir)

  after_parsing-Same : (p : Parsed Namespace) → Same world files (after_parsing world p)
  after_parsing-Same (exit code) s e = e
  after_parsing-Same (parsed opts) s e = run_steps-Same opts s e

-- Where a new temporary file can be written and removed, and has a new name with the prefix in it:
-- whatever the command line, however the programs end and whatever is raised, the temporary files
-- are after main of scripts/run-tests what they were before.
pub main-files :
    (world : World) (argv : List Text) (s : Session)
    → IsTidy world s.files
    → (main world argv s).1.files ≡ s.files
unfolding main
main-files world argv s tidy =
    after_parsing-Same world s.files tidy (parse_args (drop 1 argv)) s refl
