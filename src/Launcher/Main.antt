-- ===== src/Launcher/Main.antt =====
-- `release_file`, as far as it is about the file that it makes, and `main` of scripts/run-tests.
pub mod Clean
pub mod Plan
pub mod Passed
use commons_operator.Prelude.{
  ℕ, Bool, true, false, not, Option, none, some, List, [], ◌∷◌, Text, codes, text_eq, is_in,
  starts_with, keep, drop, if◌then◌else◌,
}
use commons_operator.Prelude.Dict.{Dict, insert}
use commons_operator.Exec.{
  Exec, Error, Result, ok, raised, raise, pure, modify, type_error, os_error, test_runner, ◌>>=◌,
  ◌>>◌,
}
use commons_operator.Newline.{readlines}
use commons_operator.Options.{Parsed, parsed, exit}
use commons_operator.Launcher.{World, Session, start}
use commons_operator.Launcher.Arguments.{Namespace, parse_args}
use commons_operator.Launcher.Release.{and_then, patched_contents}
use commons_operator.Launcher.Steps.{have_requirements, maybe_install_release, gen_tests, run_tests}

abbrev pub lift : {A : Type 0} → Result A → Exec Session A
lift (ok a) = pure a
lift (raised e) = raise e

abbrev pub write_file : Text → Text → Session → Session
write_file path contents s = record s { files = insert path contents s.files }

abbrev pub remove_file : Text → Session → Session
remove_file path s = record s { files = keep (λ e. not (text_eq e.0 path)) s.files }

-- What `_patch` writes, from what it reads.
abbrev pub contents_for : World → Dict Text → List Text → Result Text
contents_for world operators skip_ops =
    and_then world.release (λ text. patched_contents world operators skip_ops (readlines text))

-- A file that is made and cannot be written stays behind, empty.
abbrev pub make_file : Result Text → Bool → Text → Exec Session Text
make_file (raised e) writable contents = raise e
make_file (ok path) true contents = modify (write_file path contents) >> pure path
make_file (ok path) false contents = modify (write_file path []) >> raise os_error

-- `_patch`: the name of the file.
unfoldable pub patch : World → Dict Text → List Text → Exec Session Text
unfolding patched_contents readlines
patch world operators skip_ops = do
  contents ← lift (contents_for world operators skip_ops)
  make_file world.temporary world.writable contents

-- `FileNotFoundError | OSError` is no class of exceptions, so a file that cannot be removed leads to
-- a TypeError.
abbrev pub remove_patched : World → Text → Exec Session (Unit {0})
remove_patched world path =
    if not (is_in (codes "patched") path)
    then pure tt
    else if world.removable
    then modify (remove_file path)
    else raise type_error

-- `try: ... finally: ...`
abbrev pub keep_result : Result (Unit {0}) → Result (Unit {0}) → Result (Unit {0})
keep_result r (ok tt) = r
keep_result r (raised e) = raised e

abbrev pub finally : Exec Session (Unit {0}) → Exec Session (Unit {0}) → Exec Session (Unit {0})
finally body cleanup s = let (r, t) = body s in let (c, u) = cleanup t in (keep_result r c, u)

-- `with release_file(operators, skip_ops) as f: body(f)`
unfoldable pub with_release_file :
    World → Dict Text → List Text → (Text → Exec Session (Unit {0})) → Exec Session (Unit {0})
unfolding patch
with_release_file world operators skip_ops body = do
  path ← patch world operators skip_ops
  finally (body path) (remove_patched world path)

unfoldable pub run_steps : World → Namespace → Exec Session (Unit {0})
unfolding have_requirements gen_tests with_release_file maybe_install_release run_tests
run_steps world opts = do
  have_requirements world
  gen_tests world opts.test_suite opts.namespace opts.work_dir
  with_release_file world opts.operator opts.skip_operator
      λ f. maybe_install_release world opts.skip_release f opts.listener_class_preset
  (if opts.skip_tests
      then pure tt
      else run_tests world opts.test opts.parallel opts.namespace opts.skip_delete opts.work_dir)

-- What `main` returns where the steps end so; other exceptions pass.
abbrev pub exit_code : Result (Unit {0}) → Result ℕ
exit_code (ok tt) = ok 0
exit_code (raised test_runner) = ok 1
exit_code (raised e) = raised e

abbrev pub after_parsing : World → Parsed Namespace → Exec Session ℕ
after_parsing world (exit code) s = (ok code, s)
after_parsing world (parsed opts) s = let (r, t) = run_steps world opts s in (exit_code r, t)

-- `main`: the code that the process leaves with, argparse's own exits included.
unfoldable pub main : World → List Text → Exec Session ℕ
unfolding parse_args run_steps start insert is_in starts_with text_eq
main world argv = after_parsing world (parse_args (drop 1 argv))
