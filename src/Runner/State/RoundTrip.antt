-- ===== src/Runner/State/RoundTrip.antt =====
-- Resuming: a state that was saved is the state that is loaded.
use commons_operator.Prelude.{
  ◌≡◌, refl, sym, ap, subst, ◌∙◌, true, Option, none, some, List, [], ◌∷◌, ◌++◌, map, codes,
  text_eq, append_assoc, append-nil, if◌then◌else◌,
}
use commons_operator.Prelude.Int.{ℤ}
use commons_operator.Prelude.Dict.{Dict, lookup, insert}
use commons_operator.Prelude.Dict.Distinct.{IsDistinct, insert_fresh, middle_fresh}
use commons_operator.Float.{Float}
use commons_operator.Exec.{ok, key_error, value_error, pure, raise, or_raise, >>=-ok}
use commons_operator.Json.{
  Value, int, as_dict, as_text, as_int, as_texts, as_optional, require, get_or, of_fields-to_fields,
  of_items-to_items, traverse-map, as_texts-of_texts, as_optional-of_optional,
}
use commons_operator.Args.{Args}
use commons_operator.World.{World}
use commons_operator.Disk.{load_json, save_json, load_json-save_json}
use commons_operator.Manager.{state_file}
use commons_operator.Results.{
  TestResult, TestSummary, result_dict, summary_dict, result_of, summary_of,
}
use commons_operator.Results.RoundTrip.{result_of-result_dict, summary_of-summary_dict}
use commons_operator.Runner.{Runner, with_manager}
use commons_operator.Runner.State.{
  save_state, load_state, restore_state, restore_summaries, restore_from, succeeded,
}
use commons_operator.Runner.State.Codec.{
  build_state_data, ints_of, ints_from, results_of, of_ints, of_results, item, item_or,
}

module _ (F : Type 0) where
  ints_from-map :
      (ints : Dict ℤ)
      → let encode : ℤ → Value F = λ n. int n in
        ints_from (map (λ e. (e.0, encode e.1)) ints) ≡ some ints
  unfolding ints_from
  ints_from-map [] = refl
  ints_from-map ((k, n) ∷ ints) = cc (ints_from-map ints)

  ints_of-of_ints : (ints : Dict ℤ) → ints_of (of_ints {F = F} ints) ≡ some ints
  unfolding ints_of
  ints_of-of_ints ints =
      let encode : ℤ → Value F = λ n. int n in
      cc (of_fields-to_fields (map (λ e. (e.0, encode e.1)) ints), ints_from-map ints)

module _ {F : Type 0} ⦃d : Float F⦄ where
  results_of-of_results : (rs : List (TestResult F)) → results_of (of_results rs) ≡ some rs
  unfolding results_of
  results_of-of_results rs = cc (
    of_items-to_items (map result_dict rs),
    traverse-map result_of result_dict result_of-result_dict rs,
  )

  abbrev entries_of : Dict (TestSummary F) → Dict (Value F)
  entries_of = map (λ e. (e.0, summary_dict e.1))

  abbrev with_summaries : Runner F → Dict (TestSummary F) → Runner F
  with_summaries s summaries = record s { test_summaries = summaries }

  restore_summaries_lem :
      (summaries : Dict (TestSummary F)) (s : Runner F)
      → IsDistinct (s.test_summaries ++ summaries)
      → restore_summaries (entries_of summaries) s
        ≡ (ok tt, with_summaries s (s.test_summaries ++ summaries))
  unfolding restore_summaries
  restore_summaries_lem [] s distinct =
      ap (λ l. (ok tt, with_summaries s l)) (sym (append-nil s.test_summaries))
  restore_summaries_lem ((k, v) ∷ rest) s distinct =
      let fresh : insert k v s.test_summaries ≡ s.test_summaries ++ (k, v) ∷ [] =
        insert_fresh k v s.test_summaries (middle_fresh s.test_summaries k v rest distinct) in
      let stored = with_summaries s (insert k v s.test_summaries) in
      let assoc = append_assoc s.test_summaries ((k, v) ∷ []) rest in
      let moved = ap (λ l. l ++ rest) fresh ∙ assoc in
      >>=-ok (or_raise (summary_of (summary_dict v)) key_error) _ s v s
        (ap (λ o. or_raise o key_error s) (summary_of-summary_dict v))
      ∙ restore_summaries_lem rest stored (subst IsDistinct (sym moved) distinct)
      ∙ ap (λ l. (ok tt, with_summaries s l)) moved

  -- What the fields of a state give, put into a runner that has no summaries.
  abbrev pub restored : Runner F → Runner F → Runner F
  restored s t = record t {
    start_time = s.start_time;
    failed_tests = s.failed_tests;
    parallel_attempts_done = s.parallel_attempts_done;
    serial_attempts_done = s.serial_attempts_done;
    initial_result_log = s.initial_result_log;
    test_summaries = s.test_summaries;
    results = s.results;
  }

  module _ (world : World F) (e : Dict (Value F)) (s t : Runner F) where
    restore_state_lem :
        item as_text (codes "start_time") e ≡ some s.start_time
        → world.is_iso s.start_time ≡ true
        → item as_texts (codes "failed_tests") e ≡ some s.failed_tests
        → item as_int (codes "parallel_attempts_done") e ≡ some s.parallel_attempts_done
        → item ints_of (codes "serial_attempts_done") e ≡ some s.serial_attempts_done
        → item_or as_optional none (codes "initial_result_log") e ≡ some s.initial_result_log
        → item as_dict (codes "test_summaries") e ≡ some (entries_of s.test_summaries)
        → item results_of (codes "all_results") e ≡ some s.results
        → IsDistinct s.test_summaries
        → t.test_summaries ≡ []
        → restore_state world e t ≡ (ok tt, restored s t)
    unfolding restore_state
    restore_state_lem h1 iso h2 h3 h4 h5 h6 h7 distinct empty =
        let t1 : Runner F = record t { start_time = s.start_time } in
        let t2 : Runner F = record t1 { failed_tests = s.failed_tests } in
        let t3 : Runner F = record t2 { parallel_attempts_done = s.parallel_attempts_done } in
        let t4 : Runner F = record t3 { serial_attempts_done = s.serial_attempts_done } in
        let t5 : Runner F = record t4 { initial_result_log = s.initial_result_log } in
        let t6 : Runner F = with_summaries t5 s.test_summaries in
        let none_before = ap (λ l. l ++ s.test_summaries) empty in
        let filled : restore_summaries (entries_of s.test_summaries) t5 ≡ (ok tt, t6) =
          restore_summaries_lem s.test_summaries t5 (subst IsDistinct (sym none_before) distinct)
          ∙ ap (λ l. (ok tt, with_summaries t5 l)) none_before in
        >>=-ok (or_raise (item as_text (codes "start_time") e) key_error) _ t s.start_time t
          (found t h1)
        ∙ >>=-ok (if world.is_iso s.start_time then pure tt else raise value_error) _ t tt t
            (ap (λ b. (if b then pure tt else raise value_error) t) iso)
        ∙ >>=-ok (or_raise (item as_texts (codes "failed_tests") e) key_error) _ t1 s.failed_tests
            t1 (found t1 h2)
        ∙ >>=-ok (or_raise (item as_int (codes "parallel_attempts_done") e) key_error) _ t2
            s.parallel_attempts_done t2 (found t2 h3)
        ∙ >>=-ok (or_raise (item ints_of (codes "serial_attempts_done") e) key_error) _ t3
            s.serial_attempts_done t3 (found t3 h4)
        ∙ >>=-ok (or_raise (item_or as_optional none (codes "initial_result_log") e) key_error) _ t4
            s.initial_result_log t4 (found t4 h5)
        ∙ >>=-ok (or_raise (item as_dict (codes "test_summaries") e) key_error) _ t5
            (entries_of s.test_summaries) t5 (found t5 h6)
        ∙ >>=-ok (restore_summaries (entries_of s.test_summaries)) _ t5 tt t6 filled
        ∙ >>=-ok (or_raise (item results_of (codes "all_results") e) key_error) _ t6 s.results t6
            (found t6 h7)
      where
        found :
            {A : Type 0} (u : Runner F) {o : Option A} {a : A}
            → o ≡ some a
            → or_raise o key_error u ≡ (ok a, u)
        found u e = ap (λ o. or_raise o key_error u) e

  saved_state :
      (args : Args) (s s' : Runner F)
      → s.shell.manager.disk.read_fault (state_file s.shell.manager) ≡ none
      → save_state args s ≡ (ok true, s')
      → load_json (state_file s.shell.manager) s'.shell.manager.disk
        ≡ some (build_state_data args s)
  unfolding save_state
  saved_state args s s' readable e =
      let m = s.shell.manager in
      let (r, disk) = save_json (state_file m) (build_state_data args s) m.disk in
      let written : s' ≡ with_manager s (record m { disk = disk }) = ap (λ p. p.1) (sym e) in
      rw written (
        load_json-save_json (state_file m) (build_state_data args s) m.disk disk readable
          (λ i. ((e i).0, disk)))

  restore_saved :
      (world : World F) (args : Args) (s t : Runner F)
      → world.is_iso s.start_time ≡ true
      → IsDistinct s.test_summaries
      → t.test_summaries ≡ []
      → restore_from world (some (build_state_data args s)) t ≡ (true, restored s t)
  unfolding build_state_data lookup text_eq require get_or
  restore_saved world args s t iso distinct empty =
      let entries = of_fields-to_fields (entries_of s.test_summaries) in
      ap (λ p. (succeeded p.0, p.1))
        (restore_state_lem world _ s t refl iso (as_texts-of_texts F s.failed_tests) refl
          (ints_of-of_ints F s.serial_attempts_done)
          (as_optional-of_optional F s.initial_result_log) (ap (λ l. some l) entries)
          (results_of-of_results s.results) distinct empty)

  -- Where saving the state returned True, the state file can be read, the start time is an ISO time
  -- and each test has one summary: a runner without summaries, on the disk that the save left, loads
  -- the state, with the result True. It then has all that the saved runner had, but for its shell
  -- (the run times and the disk), which stays its own.
  pub load_state-save_state :
      (world : World F) (args : Args) (s s' t : Runner F)
      → s.shell.manager.disk.read_fault (state_file s.shell.manager) ≡ none
      → world.is_iso s.start_time ≡ true
      → IsDistinct s.test_summaries
      → save_state args s ≡ (ok true, s')
      → t.test_summaries ≡ []
      → t.shell.manager.disk ≡ s'.shell.manager.disk
      → load_state world (state_file s.shell.manager) t ≡ (true, restored s t)
  unfolding load_state
  load_state-save_state world args s s' t readable iso distinct e empty same_disk =
      ap (λ o. restore_from world o t)
        (ap (load_json (state_file s.shell.manager)) same_disk ∙ saved_state args s s' readable e)
      ∙ restore_saved world args s t iso distinct empty
