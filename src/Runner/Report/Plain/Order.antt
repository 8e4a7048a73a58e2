-- ===== src/Runner/Report/Plain/Order.antt =====
-- The tests that the text report lists as the slowest and as the fastest.
use commons_operator.Prelude.{
  ℕ, zero, suc, ◌-◌, ◌≤◌, ◌≡◌, ◌≢◌, refl, sym, ap, subst, ◌⊎◌, List, [], ◌∷◌, ◌++◌, arith, Text,
  codes, map, length, take, drop, length-drop, length-take-le, take-append-drop, All, Bool-cases,
  inl, inr,
}
use native.Mathlib.Decide.{dec_lt}
use commons_operator.Prelude.Dict.{Dict}
use commons_operator.Runtime.{RuntimeHistory}
use commons_operator.Runner.Report.Lines.{rule}
use commons_operator.Runner.Report.Plain.{average_line, overall_lines, runtime_statistics}
use mathlib.Core.List.{Perm, perm_middle, append-nil}
use mathlib.Core.List.Perm
use commons_operator.Float.{Float, IsOrdered, ◌≼◌}
use commons_operator.Float.Order.{All-map, lt_le, not-lt-le}
use commons_operator.Runner.Report.Plain.Statistics.{
  insert_slower, slower_onto, slowest_first, test_averages, all_runtimes,
}

module _ {F : Type 0} ⦃d : Float F⦄ where
  -- Each entry is at least as slow as those behind it.
  abbrev pub Descending : List (Text × F) → Type 0
  Descending [] = Unit
  Descending (entry ∷ rest) = All (λ (e : Text × F). e.1 ≼ entry.1) rest × Descending rest

  abbrev pub AreNumbers : List (Text × F) → Type 0
  AreNumbers = All (λ (e : Text × F). e.1 ≼ e.1)

  insert_slower-perm :
      (entry : Text × F) (es : List (Text × F)) → Perm (insert_slower entry es) (entry ∷ es)
  unfolding insert_slower
  insert_slower-perm entry [] = Perm.refl (entry ∷ [])
  insert_slower-perm entry (next ∷ rest) = elim (Bool-cases (d.lt next.1 entry.1)) [
    | inl e ↦ rw e (Perm.refl (entry ∷ next ∷ rest))
    | inr e ↦
        rw e
          (Perm.trans (Perm.cons next (insert_slower-perm entry rest)) (Perm.swap entry next rest))
  ]

  slower_onto-perm : (done es : List (Text × F)) → Perm (slower_onto done es) (done ++ es)
  unfolding slower_onto
  slower_onto-perm done [] = rw (append-nil done) (Perm.refl done)
  slower_onto-perm done (entry ∷ rest) =
      Perm.trans (slower_onto-perm (insert_slower entry done) rest) (
        Perm.trans (Perm.append_right rest (insert_slower-perm entry done))
          (Perm.symm (perm_middle done rest)))

  insert-All :
      (P : Text × F → Type 0) (entry : Text × F) (es : List (Text × F))
      → P entry
      → All P es
      → All P (insert_slower entry es)
  unfolding insert_slower
  insert-All P entry [] p h = (p, tt)
  insert-All P entry (next ∷ rest) p h = elim (Bool-cases (d.lt next.1 entry.1)) [
    | inl e ↦ rw e (p, h)
    | inr e ↦ rw e (h.0, insert-All P entry rest p h.1)
  ]

  module _ (laws : IsOrdered F) where
    insert_slower-Descending :
        (entry : Text × F) (es : List (Text × F))
        → entry.1 ≼ entry.1
        → AreNumbers es
        → Descending es
        → Descending (insert_slower entry es)
    unfolding insert_slower
    insert_slower-Descending entry [] hx h s = (tt, tt)
    insert_slower-Descending entry (next ∷ rest) hx h s = elim (Bool-cases (d.lt next.1 entry.1)) [
      | inl e ↦
          let below = lt_le laws next.1 entry.1 h.0 hx e in
          rw e ((below, All-map (λ (e : Text × F) le. laws.le_trans _ _ _ le below) rest s.0), s)
      | inr e ↦ rw e (
        insert-All (λ (e : Text × F). e.1 ≼ next.1) entry rest
            (not-lt-le laws next.1 entry.1 h.0 hx e) s.0,
        insert_slower-Descending entry rest hx h.1 s.1,
      )
    ]

    slower_onto-Descending :
        (done es : List (Text × F))
        → AreNumbers done
        → AreNumbers es
        → Descending done
        → Descending (slower_onto done es)
    unfolding slower_onto
    slower_onto-Descending done [] hd he s = s
    slower_onto-Descending done (entry ∷ rest) hd he s =
        slower_onto-Descending (insert_slower entry done) rest
          (insert-All (λ (e : Text × F). e.1 ≼ e.1) entry done he.0 hd) he.1
          (insert_slower-Descending entry done he.0 hd s)

    slowest_first-Descending :
        (es : List (Text × F))
        → AreNumbers es
        → Descending (slowest_first es) × Perm (slowest_first es) es
    unfolding slowest_first
    slowest_first-Descending es h = (slower_onto-Descending [] es tt h tt, slower_onto-perm [] es)

  -- Two parts that make up the entries, none of the second slower than one of the first.
  abbrev pub Parts : List (Text × F) → List (Text × F) → List (Text × F) → Type 0
  Parts entries slower faster =
      Perm (slower ++ faster) entries
      × All (λ (a : Text × F). All (λ (b : Text × F). b.1 ≼ a.1) faster) slower

  -- Three of them are shown, or all that there are.
  abbrev pub AreThree : List (Text × F) → List (Text × F) → Type 0
  AreThree shown others = (length shown ≤ 3) × ((length shown ≡ 3) ⊎ (others ≡ []))

  All-behind : (P : Text × F → Type 0) (xs ys : List (Text × F)) → All P (xs ++ ys) → All P ys
  All-behind P [] ys h = h
  All-behind P (x ∷ xs) ys h = All-behind P xs ys h.1

  crossed :
      (slower faster : List (Text × F))
      → Descending (slower ++ faster)
      → All (λ (a : Text × F). All (λ (b : Text × F). b.1 ≼ a.1) faster) slower
  crossed [] faster h = tt
  crossed (x ∷ slower) faster h =
      (All-behind (λ (b : Text × F). b.1 ≼ x.1) slower faster h.0, crossed slower faster h.1)

  Parts-split :
      (n : ℕ) (es sorted : List (Text × F))
      → Descending sorted
      → Perm sorted es
      → Parts es (take n sorted) (drop n sorted)
  Parts-split n es sorted h p =
      let whole = take-append-drop n sorted in
      (
        subst (λ xs. Perm xs es) (sym whole) p,
        crossed (take n sorted) (drop n sorted) (subst Descending (sym whole) h),
      )

  three_first : (n : ℕ) (es : List (Text × F)) → (length (take n es) ≡ n) ⊎ (drop n es ≡ [])
  three_first zero es = inl refl
  three_first (suc n) [] = inr refl
  three_first (suc n) (e ∷ es) = elim (three_first n es) [ inl h ↦ inl (ap suc h) | inr h ↦ inr h ]

  three_last : (es : List (Text × F)) → AreThree (drop (length es - 3) es) (take (length es - 3) es)
  three_last es = elim (dec_lt 3 (length es)) [
    | yes h ↦ (
      omega (arith, length-drop (length es - 3) es),
      inl (omega (arith, length-drop (length es - 3) es)),
    )
    | no h ↦
        let none_before : length es - 3 ≡ 0 = omega arith in
        (omega (arith, length-drop (length es - 3) es), inr (ap (λ n. take n es) none_before))
  ]

  -- The two lists of the report.
  abbrev pub shown_lines : List (Text × F) → List (Text × F) → List Text
  shown_lines slowest fastest =
      codes "Slowest tests (by average):"
      ∷ (map average_line slowest
          ++ ([] ∷ codes "Fastest tests (by average):" ∷ map average_line fastest))

  abbrev ranked : Dict (RuntimeHistory F) → List (Text × F)
  ranked histories = slowest_first (test_averages histories)

  lines_of :
      (histories : Dict (RuntimeHistory F)) (runs : List F)
      → runs ≢ []
      → (front : List Text) × (overall_lines histories runs
          ≡ front
            ++ shown_lines
                (take 3 (ranked histories))
                (drop (length (ranked histories) - 3) (ranked histories)))
  lines_of histories [] some_run = absurd (some_run refl)
  lines_of histories (x ∷ xs) some_run = (take 6 (overall_lines histories (x ∷ xs)), refl)

  statistics_of :
      (histories : Dict (RuntimeHistory F))
      → all_runtimes histories ≢ []
      → (front : List Text) × (runtime_statistics histories
          ≡ (front
              ++ shown_lines
                  (take 3 (ranked histories))
                  (drop (length (ranked histories) - 3) (ranked histories)))
            ++ [] ∷ [])
  unfolding runtime_statistics all_runtimes
  statistics_of [] some_run = absurd (some_run refl)
  statistics_of (entry ∷ histories) some_run =
      let (front, e) = lines_of (entry ∷ histories) _ some_run in
      (
        codes "RUNTIME STATISTICS" ∷ rule 46 ∷ front,
        ap (λ (lines : List Text). codes "RUNTIME STATISTICS" ∷ rule 46 ∷ (lines ++ [] ∷ [])) e,
      )

  -- Where the floats are ordered as the interface says, some run time is recorded and no average is
  -- NaN: the statistics of the report end in the lines of two lists of tests by their average run
  -- times. Each list has three tests, or all that there are; no other test is slower than one of
  -- the first list, and none is faster than one of the second.
  pub runtime_statistics-Parts :
      (laws : IsOrdered F) (histories : Dict (RuntimeHistory F))
      → all_runtimes histories ≢ []
      → AreNumbers (test_averages histories)
      → (slowest : List (Text × F)) × (others : List (Text × F)) × (before : List (Text × F))
        × (fastest : List (Text × F)) × (front : List Text) × (runtime_statistics histories
            ≡ (front ++ shown_lines slowest fastest) ++ [] ∷ [])
        × Parts (test_averages histories) slowest others
        × AreThree slowest others
        × Parts (test_averages histories) before fastest
        × AreThree fastest before
  runtime_statistics-Parts laws histories some_run numbers =
      let (front, lines) = statistics_of histories some_run in
      let (sorted, perm) = slowest_first-Descending laws (test_averages histories) numbers in
      let all = ranked histories in
      let k = length all - 3 in
      (
        take 3 all,
        drop 3 all,
        take k all,
        drop k all,
        front,
        lines,
        Parts-split 3 _ all sorted perm,
        (length-take-le 3 all, three_first 3 all),
        Parts-split k _ all sorted perm,
        three_last all,
      )
