-- ===== src/Launcher/Main/Plan.antt =====
-- The programs that a run starts where all goes well.
use commons_operator.Prelude.{
  ℕ, ◌≡◌, refl, sym, ap, ◌∙◌, append_assoc, append-nil, Bool, true, false, List, [], ◌∷◌, ◌++◌,
  Option, none, some, Text, is_in, starts_with, length, drop, if◌then◌else◌, all,
}
use commons_operator.Prelude.Dict.{lookup}
use commons_operator.Prelude.Int.{pos}
use commons_operator.Exec.{Exec, ok, pure, ◌>>=◌, >>=-ok}
use commons_operator.Executor.Command.{given}
use commons_operator.Options.{parsed}
use commons_operator.Launcher.{World, Command, Completed, Session, start}
use commons_operator.Launcher.Arguments.{Namespace, parse_args}
use commons_operator.Launcher.Steps.{
  requirements, have_requirements, maybe_install_release, stackablectl_cmd, beku_cmd, gen_tests,
  check_ns_cmd, ensure_namespace_exists, kuttl_cmd, prepare_namespace, run_tests,
}
use commons_operator.Launcher.Main.{
  lift, remove_patched, keep_result, contents_for, make_file, write_file, patch, with_release_file,
  run_steps, exit_code, after_parsing, main,
}
use commons_operator.Launcher.Main.Clean.{IsTidy, keep-insert}

abbrev pub namespace_commands : Option Text → List Command
namespace_commands none = []
namespace_commands (some namespace) = check_ns_cmd namespace ∷ []

abbrev pub test_commands : Bool → Namespace → List Command
test_commands true opts = []
test_commands false opts =
    namespace_commands (given opts.namespace)
    ++ (kuttl_cmd opts.test opts.parallel opts.namespace opts.skip_delete opts.work_dir ∷ [])

abbrev pub install_commands : Bool → Text → Option Text → List Command
install_commands true path preset = []
install_commands false path preset = stackablectl_cmd path preset ∷ []

-- What is started for these options, where the release file that is written has this name.
abbrev pub plan : Namespace → Text → List Command
plan opts path =
    beku_cmd opts.test_suite opts.namespace opts.work_dir
    ∷ (install_commands opts.skip_release path opts.listener_class_preset
        ++ test_commands opts.skip_tests opts)

abbrev pub ended_quietly : Completed
ended_quietly = record { returncode = pos 0; stderr = some [] }

-- Every program is there and ends with 0 and no output, and there is a release file for the options.
pub record GoesWell (world : World) (opts : Namespace) (path : Text) : Type 0 where
  pub found : all world.which requirements ≡ true
  pub ends : (n : ℕ) → world.process n ≡ ok ended_quietly
  pub contents : Text
  pub patches : contents_for world opts.operator opts.skip_operator ≡ ok contents
  pub makes : world.temporary ≡ ok path

abbrev pub after : Session → List Command → Session
after s commands = record s { commands = s.commands ++ commands }

module _ (world : World) (ends : (n : ℕ) → world.process n ≡ ok ended_quietly) where
  start-quiet :
      (command : Command) (s : Session)
      → start world command s ≡ (ok ended_quietly, after s (command ∷ []))
  unfolding start
  start-quiet command s = λ i. (ends (length s.commands) i, after s (command ∷ []))

  gen_tests-quiet :
      (suite namespace : Option Text) (work_dir : Text) (s : Session)
      → gen_tests world suite namespace work_dir s
        ≡ (ok tt, after s (beku_cmd suite namespace work_dir ∷ []))
  unfolding gen_tests
  gen_tests-quiet suite namespace work_dir s =
      >>=-ok (start world (beku_cmd suite namespace work_dir)) _ s ended_quietly _
        (start-quiet (beku_cmd suite namespace work_dir) s)

  install-quiet :
      (skip : Bool) (path : Text) (preset : Option Text) (s : Session)
      → maybe_install_release world skip path preset s
        ≡ (ok tt, after s (install_commands skip path preset))
  unfolding maybe_install_release is_in starts_with
  install-quiet true path preset s =
      λ i. (ok tt, record s { commands = sym (append-nil s.commands) i })
  install-quiet false path preset s =
      >>=-ok (start world (stackablectl_cmd path preset)) _ s ended_quietly _
        (start-quiet (stackablectl_cmd path preset) s)

  prepare-quiet :
      (o : Option Text) (s : Session)
      → prepare_namespace world o s ≡ (ok tt, after s (namespace_commands o))
  unfolding ensure_namespace_exists
  prepare-quiet none s = λ i. (ok tt, record s { commands = sym (append-nil s.commands) i })
  prepare-quiet (some namespace) s =
      >>=-ok (start world (check_ns_cmd namespace)) _ s ended_quietly _
        (start-quiet (check_ns_cmd namespace) s)

  tests-quiet :
      (skip : Bool) (opts : Namespace) (s : Session)
      → (if skip
            then pure tt
            else run_tests world opts.test opts.parallel opts.namespace opts.skip_delete
                opts.work_dir)
          s
        ≡ (ok tt, after s (test_commands skip opts))
  unfolding run_tests
  tests-quiet true opts s = λ i. (ok tt, record s { commands = sym (append-nil s.commands) i })
  tests-quiet false opts s =
      let kuttl = kuttl_cmd opts.test opts.parallel opts.namespace opts.skip_delete opts.work_dir in
      let prepared = after s (namespace_commands (given opts.namespace)) in
      >>=-ok (prepare_namespace world (given opts.namespace)) _ s tt prepared
        (prepare-quiet (given opts.namespace) s)
      ∙ >>=-ok (start world kuttl) _ prepared ended_quietly _ (start-quiet kuttl prepared)
      ∙ (λ i. (
        ok tt,
        record s {
          commands =
              append_assoc s.commands (namespace_commands (given opts.namespace)) (kuttl ∷ []) i;
        },
      ))

module _ (world : World) (opts : Namespace) (path : Text) (s : Session)
    (well : GoesWell world opts path) (tidy : IsTidy world s.files) where
  have_requirements-found : have_requirements world s ≡ (ok tt, s)
  unfolding have_requirements
  have_requirements-found = rw well.found

  patch-made :
      (t : Session)
      → patch world opts.operator opts.skip_operator t ≡ (ok path, write_file path well.contents t)
  unfolding patch
  patch-made t = λ i.
      (lift (well.patches i) >>= λ contents. make_file (well.makes i) (tidy.writes i) contents) t

  abbrev install : Text → Exec Session (Unit {0})
  install f = maybe_install_release world opts.skip_release f opts.listener_class_preset

  removed :
      (t : Session) (commands : List Command)
      → t.files ≡ s.files
      → remove_patched world path (after (write_file path well.contents t) commands)
        ≡ (ok tt, after t commands)
  removed t commands e =
      let at_new_path = tidy.is_new path well.makes in
      rw (tidy.named path well.makes) (
        rw tidy.removes (λ i. (
          ok tt,
          record {
            commands = t.commands ++ commands;
            files = keep-insert path well.contents t.files (ap (lookup path) e ∙ at_new_path) i;
          },
        )))

  installed :
      (t : Session)
      → t.files ≡ s.files
      → with_release_file world opts.operator opts.skip_operator install t
        ≡ (ok tt, after t (install_commands opts.skip_release path opts.listener_class_preset))
  unfolding with_release_file
  installed t e =
      let commands = install_commands opts.skip_release path opts.listener_class_preset in
      let made = write_file path well.contents t in
      >>=-ok (patch world opts.operator opts.skip_operator) _ t path made (patch-made t)
      ∙ ap
          (λ p.
            (keep_result p.0 (remove_patched world path p.1).0, (remove_patched world path p.1).1))
          (install-quiet world well.ends opts.skip_release path opts.listener_class_preset made)
      ∙ ap (λ p. (keep_result (ok tt) p.0, p.1)) (removed t commands e)

  run_steps-plan : run_steps world opts s ≡ (ok tt, after s (plan opts path))
  unfolding run_steps
  run_steps-plan =
      let beku = beku_cmd opts.test_suite opts.namespace opts.work_dir in
      let commands = install_commands opts.skip_release path opts.listener_class_preset in
      let tests = test_commands opts.skip_tests opts in
      let generated = after s (beku ∷ []) in
      >>=-ok (have_requirements world) _ s tt s have_requirements-found
      ∙ >>=-ok (gen_tests world opts.test_suite opts.namespace opts.work_dir) _ s tt generated
          (gen_tests-quiet world well.ends opts.test_suite opts.namespace opts.work_dir s)
      ∙ >>=-ok (with_release_file world opts.operator opts.skip_operator install) _ generated tt
          (after generated commands) (installed generated refl)
      ∙ tests-quiet world well.ends opts.skip_tests opts (after generated commands)
      ∙ (λ i. (
        ok tt,
        record s {
          commands =
              (append_assoc (s.commands ++ beku ∷ []) commands tests
                  ∙ append_assoc s.commands (beku ∷ []) (commands ++ tests))
                i;
        },
      ))

-- Where the options are read, every program is there and ends with 0 and no output, there is a
-- release file for the options, and its temporary file can be written and removed, with a new name
-- that has the prefix: main returns 0, the programs of the plan were started in its order, and the
-- temporary files are what they were.
pub main-plan :
    (world : World) (argv : List Text) (opts : Namespace) (path : Text) (s : Session)
    → parse_args (drop 1 argv) ≡ parsed opts
    → GoesWell world opts path
    → IsTidy world s.files
    → main world argv s ≡ (ok 0, after s (plan opts path))
unfolding main
main-plan world argv opts path s e well tidy =
    ap (λ p. after_parsing world p s) e
    ∙ ap (λ p. (exit_code p.0, p.1)) (run_steps-plan world opts path s well tidy)
