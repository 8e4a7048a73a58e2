-- ===== src/Runner/Report/Plain/Sections.antt =====
-- The lines of the sections of the text report.
use commons_operator.Prelude.{
  ◌≡◌, ap, ◌∙◌, inl, inr, Bool, true, false, ◌&&◌, some, List, [], ◌∷◌, ◌++◌, arith, Text, codes,
  text_eq, text_eq_refl, text_eq_iff, any, any_left, any_right, or_left, or_right, Bool-cases,
}
use commons_operator.Executor.Command.{given}
use commons_operator.Runner.Report.Lines.{namespace_lines, error_lines}
use commons_operator.Prelude.Dict.{Dict, lookup}
use commons_operator.Float.{Float}
use commons_operator.Manager.{Manager}
use commons_operator.Results.{TestResult, TestSummary}
use commons_operator.Runner.Serial.{any_success}
use commons_operator.Runner.Report.Plain.{
  with_status, first_success, flaky_lines_from, flaky_lines, flaky_section, failed_lines,
  failed_section, failed_runtime, last_failed_step,
}

-- A line stands in a text.
abbrev pub has_line : Text → List Text → Bool
has_line line = any (λ l. text_eq l line)

abbrev pub mark : Bool → Text
mark true = codes "  ✓ "
mark false = codes "  ✗ "

module _ {F : Type 0} where
  abbrev pub names_test : Text → TestSummary F → Bool
  names_test name s = text_eq s.test_name name

  abbrev pub names_flaky : Text → TestSummary F → Bool
  names_flaky name s = any_success s.retry_results && text_eq s.test_name name

  -- A summary of a status is among those of that status, with all that is true of it.
  pub with_status-lookup :
      (q : TestSummary F → Bool) (status name : Text) (v : TestSummary F) (d : Dict (TestSummary F))
      → lookup name d ≡ some v
      → v.final_status ≡ status
      → q v ≡ true
      → any q (with_status status d) ≡ true
  unfolding with_status lookup
  with_status-lookup q status name v [] h e t = cc h
  with_status-lookup q status name v ((k, w) ∷ d) h e t = elim (Bool-cases (text_eq k name)) [
    | inl here ↦
        let same : w ≡ v = ground arith in
        let fits : text_eq w.final_status status ≡ true =
          ap (λ (s : TestSummary F). text_eq s.final_status status) same
          ∙ ap (λ t. text_eq t status) e
          ∙ text_eq_refl status in
        rw fits (or_left _ _ (ap q same ∙ t))
    | inr there ↦
        let behind = with_status-lookup q status name v d (ground arith) e t in
        elim (Bool-cases (text_eq w.final_status status)) [
          | inl fits ↦ rw fits (or_right _ _ behind)
          | inr other ↦ rw other behind
        ]
  ]

  first_success_found :
      (rs : List (TestResult F))
      → any_success rs ≡ true
      → (r : TestResult F) × (first_success rs ≡ some r)
  unfolding first_success
  first_success_found [] h = cc h
  first_success_found (r ∷ rs) h = elim (Bool-cases r.success) [
    | inl e ↦ (r, rw e)
    | inr e ↦ let (found, same) = first_success_found rs (ground arith) in (found, rw e same)
  ]

module _ {F : Type 0} ⦃d : Float F⦄ (m : Manager F) where
  same_line : (mark a b : Text) → text_eq a b ≡ true → text_eq (mark ++ a) (mark ++ b) ≡ true
  same_line mark a b h =
      (text_eq_iff (mark ++ a) (mark ++ b)).1 (ap (λ t. mark ++ t) ((text_eq_iff a b).0 h))

  pub has_line-failed_lines :
      (name : Text) (ss : List (TestSummary F))
      → any (names_test name) ss ≡ true
      → has_line (codes "  ✗ " ++ name) (failed_lines m ss) ≡ true
  unfolding failed_lines
  has_line-failed_lines name [] h = cc h
  has_line-failed_lines name (s ∷ ss) h = elim (Bool-cases (text_eq s.test_name name)) [
    | inl here ↦ or_left _ _ (same_line (codes "  ✗ ") s.test_name name here)
    | inr there ↦ or_right _ _ (
        or_right _ _ (
          any_right is_it (namespace_lines (given s.final_namespace)) _ (
            any_right is_it (failed_runtime (lookup s.test_name m.runtime_history)) _ (
              any_right is_it (error_lines (given (last_failed_step s.retry_results))) _
                (or_right _ _ (has_line-failed_lines name ss (ground arith)))))))
  ]
    where
      is_it : Text → Bool
      is_it l = text_eq l (codes "  ✗ " ++ name)

  pub has_line-flaky_lines :
      (name : Text) (ss : List (TestSummary F))
      → any (names_flaky name) ss ≡ true
      → has_line (codes "  ✓ " ++ name) (flaky_lines m ss) ≡ true
  unfolding flaky_lines
  has_line-flaky_lines name [] h = cc h
  has_line-flaky_lines name (s ∷ ss) h = elim (Bool-cases (names_flaky name s)) [
    | inl here ↦
        let (r, e) = first_success_found s.retry_results (ground arith) in
        let named : text_eq s.test_name name ≡ true = ground arith in
        any_left is_it (flaky_lines_from m s (first_success s.retry_results)) _ (
          ap (λ o. any is_it (flaky_lines_from m s o)) e
          ∙ or_left _ _ (same_line (codes "  ✓ ") s.test_name name named))
    | inr there ↦
        any_right is_it (flaky_lines_from m s (first_success s.retry_results)) _
          (has_line-flaky_lines name ss (ground arith))
  ]
    where
      is_it : Text → Bool
      is_it l = text_eq l (codes "  ✓ " ++ name)

  pub has_line-failed_section :
      (line : Text) (ss : List (TestSummary F))
      → has_line line (failed_lines m ss) ≡ true
      → has_line line (failed_section m ss) ≡ true
  unfolding failed_section failed_lines
  has_line-failed_section line [] h = h
  has_line-failed_section line (s ∷ ss) h = or_right _ _ (or_right _ _ h)

  pub has_line-flaky_section :
      (line : Text) (ss : List (TestSummary F))
      → has_line line (flaky_lines m ss) ≡ true
      → has_line line (flaky_section m ss) ≡ true
  unfolding flaky_section flaky_lines
  has_line-flaky_section line [] h = h
  has_line-flaky_section line (s ∷ ss) h = or_right _ _ (or_right _ _ h)
