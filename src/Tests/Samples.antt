-- ===== src/Tests/Samples.antt =====
-- A world in which a test fails its first run and passes afterwards, and a run in it.
use commons_operator.Prelude.{ℕ, zero, suc, true, false, none, some, [], ◌∷◌, Text, codes, length}
use commons_operator.Prelude.Int.{pos}
use commons_operator.World.{World, Response}
use commons_operator.Disk.{Disk}
use commons_operator.Manager.{Manager}
use commons_operator.Runtime.{RuntimeHistory}
use commons_operator.Results.{TestResult, TestSummary, serial, passed}
use commons_operator.Executor.Run.{Shell}
use commons_operator.Runner.{Runner}

abbrev pub smoke : Text
smoke = codes "smoke_openshift-false"

abbrev pub logging : Text
logging = codes "logging"

abbrev pub answer : ℕ → Response ℕ
answer zero = record {
  log_opens = true;
  starts = true;
  returncode = pos 1;
  duration = 100;
  log = some (codes "    --- FAIL: kuttl/harness/logging (9.1s)\n");
  kubectl = some (pos 0);
  work_timestamp = codes "1";
  log_timestamp = codes "2";
  now = codes "2025-01-01T00:00:00";
}
answer (suc n) = record {
  log_opens = true;
  starts = true;
  returncode = pos 0;
  duration = 40;
  log = some (codes "Creating namespace: kuttl-test-one\n");
  kubectl = some (pos 0);
  work_timestamp = codes "1";
  log_timestamp = codes "2";
  now = codes "2025-01-01T01:00:00";
}

abbrev pub world : World ℕ
world = record {
  response = answer;
  completion = λ calls names. names;
  environ = [];
  exists = λ path. false;
  md5 = λ name. codes "0cc175b9c0f1b6a831c399e269772661";
  is_word = λ c. false;
  is_iso = λ text. true;
  strftime = λ text. text;
  elapsed = λ start finish. codes "1:00:00";
  state_files = λ directory. codes "old" ∷ codes "new" ∷ codes "newest" ∷ [];
  mtime = length;
}

abbrev pub empty_disk : Disk ℕ
empty_disk = record { files = []; read_fault = λ path. none; write_fault = λ path. none }

abbrev pub logging_history : RuntimeHistory ℕ
logging_history = record {
  test_name = logging;
  runtimes = 61 ∷ 35 ∷ 45 ∷ [];
  last_updated = codes "2025-01-01T00:00:00";
}

abbrev pub manager : Manager ℕ
manager = record {
  output_dir = codes "out";
  runtime_history = (logging, logging_history) ∷ [];
  disk = empty_disk;
}

abbrev pub shell : Shell ℕ
shell = record { manager = manager; calls = 1; events = [] }

abbrev pub first_result : TestResult ℕ
first_result = record {
  test_name = smoke;
  attempt = pos 1;
  attempt_type = serial;
  success = true;
  namespace = none;
  duration = 40;
  log_file = some (codes "out/retries/smoke.txt");
  failed_step = none;
}

abbrev pub smoke_summary : TestSummary ℕ
smoke_summary = record {
  test_name = smoke;
  initial_result = first_result;
  retry_results = first_result ∷ [];
  final_status = passed;
  total_attempts = pos 2;
  final_namespace = none;
}

abbrev pub runner : Runner ℕ
runner = record {
  results = first_result ∷ [];
  test_summaries = [];
  start_time = codes "2025-01-01T00:00:00";
  failed_tests = smoke ∷ logging ∷ [];
  parallel_attempts_done = pos 1;
  serial_attempts_done = (smoke, pos 1) ∷ [];
  initial_result_log = some (codes "out/full_suite.txt");
  shell = shell;
}
