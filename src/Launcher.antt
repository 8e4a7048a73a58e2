-- ===== src/Launcher.antt =====
-- scripts/run-tests: install the operators, generate the tests and run them. This module has what
-- the script meets, the programs that it starts and the files that it writes, and what it keeps of
-- them.
pub mod Arguments
pub mod Release
pub mod Steps
pub mod Main
pub mod Retry
use commons_operator.Prelude.{ℕ, Bool, Option, none, some, List, [], ◌∷◌, ◌++◌, Text, length}
use commons_operator.Prelude.Int.{ℤ}
use commons_operator.Prelude.Dict.{Dict}
use commons_operator.Exec.{Exec, Result, raise, pure, value_error}

-- A program that has ended. What it wrote to `stderr` is missing where it is not UTF-8.
pub record Completed : Type 0 where
  pub returncode : ℤ
  pub stderr : Option Text

pub record World : Type 0 where
  -- `shutil.which`
  pub which : Text → Bool
  -- How a program ends, or what is raised where it cannot be started, by the number of programs
  -- that were started before.
  pub process : ℕ → Result Completed
  -- What is read from tests/release.yaml.
  pub release : Result Text
  -- The name of the new temporary file, or what is raised where none can be made.
  pub temporary : Result Text
  -- Whether that file can be written.
  pub writable : Bool
  -- Whether that file can be removed.
  pub removable : Bool
  -- What `re.sub` makes of a replacement with a backslash in it.
  pub template : Text → Result Text

-- The command line of a program, and the directory that it is started in, if it is another one.
pub record Command : Type 0 where
  pub words : List Text
  pub cwd : Option Text

pub record Session : Type 0 where
  pub commands : List Command
  -- The temporary files.
  pub files : Dict Text

unfoldable pub start : World → Command → Exec Session Completed
start world command s =
    (world.process (length s.commands), record s { commands = s.commands ++ command ∷ [] })

abbrev pub decode : Option Text → Exec Session Text
decode none = raise value_error
decode (some text) = pure text
