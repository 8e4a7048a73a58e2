-- ===== src/World.antt =====
-- What the code of scripts/auto-retry-tests.py meets and does not decide: the processes that it
-- starts, the clock, the environment variables and the file system beside the JSON files.
use commons_operator.Prelude.{ℕ, Bool, List, Option, Text}
use commons_operator.Prelude.Int.{ℤ}
use commons_operator.Prelude.Dict.{Dict}

-- One call of `run_single_test_suite`, as the world answers it.
pub record Response (F : Type 0) : Type 0 where
  -- Whether the log file can be opened for writing, and whether `subprocess.run` starts the program.
  pub log_opens : Bool
  pub starts : Bool
  pub returncode : ℤ
  -- The difference of the two calls of `time.time()`.
  pub duration : F
  -- The log as it is read afterwards, `none` if that raises.
  pub log : Option Text
  -- The exit status of `kubectl delete namespace`, `none` if that raises.
  pub kubectl : Option ℤ
  -- `datetime.now()`, for the work directory, for the full suite's log, and in the ISO format.
  pub work_timestamp : Text
  pub log_timestamp : Text
  pub now : Text

pub record World (F : Type 0) : Type 0 where
  -- The answers, by the number of the call.
  pub response : ℕ → Response F
  -- The order in which the tests of a parallel round are completed, by the number of the calls
  -- before the round.
  pub completion : ℕ → List Text → List Text
  pub environ : Dict Text
  -- Whether a path exists.
  pub exists : Text → Bool
  -- `hashlib.md5(name.encode()).hexdigest()`, `\w` and `datetime.fromisoformat`, which accepts a text
  -- or raises.
  pub md5 : Text → Text
  pub is_word : ℕ → Bool
  pub is_iso : Text → Bool
  -- `strftime('%Y-%m-%d %H:%M:%S')` of a time in the ISO format, and `str` of the difference of two.
  pub strftime : Text → Text
  pub elapsed : Text → Text → Text
  -- `directory.glob("**/test_run_state.json")`, and `stat().st_mtime` of a path.
  pub state_files : Text → List Text
  pub mtime : Text → F
