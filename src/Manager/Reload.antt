-- ===== src/Manager/Reload.antt =====
-- What `load_runtime_history` makes of a file that `save_runtime_history` wrote.
use commons_operator.Prelude.{
  ℕ, suc, ◌≡◌, refl, sym, ap, subst, ◌∙◌, Bool, true, false, Option, none, some, List, [], ◌∷◌,
  ◌++◌, arith, Text, keep, map, append_assoc, append-nil, if◌then◌else◌, inl, inr, List-cases,
  text_eq, ltb,
}
use commons_operator.Prelude.Dict.{Dict, lookup, insert}
use commons_operator.Prelude.Dict.Distinct.{
  IsDistinct, AllValues, insert_fresh, middle_fresh, drop-IsDistinct,
}
use commons_operator.Float.{Float}
use commons_operator.Exec.{
  Result, ok, ◌>>=◌, >>=-ok, or_raise, key_error, type_error, pure, continue-pure,
}
use commons_operator.Json.{Value, require, traverse, as_dict, of_fields-to_fields}
use commons_operator.Disk.{load_json, save_json, load_json-save_json}
use commons_operator.Runtime.{RuntimeHistory}
use commons_operator.Runtime.Codec.{history_dict, history_of, history_of-history_dict}
use commons_operator.Manager.Invariant.{IsValid, Slow, history-save}
use commons_operator.Manager.{
  load_value, load_from, runtime_file, history_data, Manager, store, load_entries,
  load_runtime_history, save_runtime_history,
}

module _ {F : Type 0} ⦃d : Float F⦄ where
  abbrev pub has_runs : Text × RuntimeHistory F → Bool
  has_runs e = elim e.1.runtimes [ [] ↦ false | x ∷ xs ↦ true ]

  abbrev entries_of : Dict (RuntimeHistory F) → Dict (Value F)
  entries_of = map (λ e. (e.0, history_dict e.1))

  load_step :
      (k : Text) (v : Value F) (rest : Dict (Value F)) (m m' : Manager F)
      (found : Option (RuntimeHistory F)) (n : ℕ)
      → history_of v ≡ some found
      → load_entries rest (store k found m) ≡ (ok n, m')
      → (n' : ℕ) × (load_entries ((k, v) ∷ rest) m ≡ (ok n', m'))
  unfolding load_entries
  load_step k v rest m m' none n e h = (
    n,
    >>=-ok (or_raise (history_of v) key_error) _ m none m (ap (λ o. or_raise o key_error m) e)
        ∙ >>=-ok (load_entries rest) _ m n m' h,
  )
  load_step k v rest m m' (some g) n e h = (
    suc n,
    >>=-ok (or_raise (history_of v) key_error) _ m (some g) m (ap (λ o. or_raise o key_error m) e)
        ∙ >>=-ok (load_entries rest) _ (store k (some g) m) n m' h,
  )

  history_of_empty :
      (h : RuntimeHistory F) → h.runtimes ≡ [] → history_of (history_dict h) ≡ some none
  unfolding history_of history_dict lookup text_eq require traverse
  history_of_empty h e = rw e

  keep_empty :
      (k : Text) (h : RuntimeHistory F) (rest : Dict (RuntimeHistory F))
      → h.runtimes ≡ []
      → keep has_runs ((k, h) ∷ rest) ≡ keep has_runs rest
  keep_empty k h rest e = rw e

  keep_full :
      (k : Text) (h : RuntimeHistory F) (rest : Dict (RuntimeHistory F)) (r : F) (rs : List F)
      → h.runtimes ≡ r ∷ rs
      → keep has_runs ((k, h) ∷ rest) ≡ (k, h) ∷ keep has_runs rest
  keep_full k h rest r rs e = ground (arith, e)

  abbrev with_history : Manager F → ℕ → Dict (RuntimeHistory F) → Result ℕ × Manager F
  with_history m n histories = (ok n, record m { runtime_history = histories })

  -- Entry by entry: what has run times comes behind what is there, the rest is left out.
  load_entries_lem :
      (histories : Dict (RuntimeHistory F)) (m : Manager F)
      → AllValues Slow histories
      → IsDistinct (m.runtime_history ++ histories)
      → (n : ℕ) × (load_entries (entries_of histories) m
          ≡ (ok n, record m { runtime_history = m.runtime_history ++ keep has_runs histories }))
  load_entries_lem [] m slow distinct =
      (0, unfold load_entries in ap (with_history m 0) (sym (append-nil m.runtime_history)))
  load_entries_lem ((k, h) ∷ rest) m slow distinct = elim (List-cases h.runtimes) [
    | inl e ↦
        let (n, loaded) =
          load_entries_lem rest m slow.1 (drop-IsDistinct m.runtime_history k h rest distinct) in
        load_step k (history_dict h) (entries_of rest) m _ none n (history_of_empty h e) (
          loaded
          ∙ ap (λ l. with_history m n (m.runtime_history ++ l)) (sym (keep_empty k h rest e)))
    | inr (r, rs, e) ↦
        let stored : Manager F = record m { runtime_history = insert k h m.runtime_history } in
        let fresh : insert k h m.runtime_history ≡ m.runtime_history ++ (k, h) ∷ [] =
          insert_fresh k h m.runtime_history (middle_fresh m.runtime_history k h rest distinct) in
        let (n, loaded) = load_entries_lem rest stored slow.1 (
          subst IsDistinct
            (sym (append_assoc m.runtime_history ((k, h) ∷ []) rest)
              ∙ ap (λ l. l ++ rest) (sym fresh))
            distinct) in
        load_step k (history_dict h) (entries_of rest) m _ (some h) n
          (history_of-history_dict h r rs e slow.0)
          (loaded
            ∙ ap (with_history m n) (
                ap (λ l. l ++ keep has_runs rest) fresh
                ∙ append_assoc m.runtime_history ((k, h) ∷ []) (keep has_runs rest)
                ∙ ap (λ l. m.runtime_history ++ l) (sym (keep_full k h rest r rs e))))
  ]

  finish_history :
      (b : Bool) (m : Manager F)
      → ((if b then (do saved ← save_runtime_history; pure tt) else pure tt) m).1.runtime_history
        ≡ m.runtime_history
  finish_history true m =
      let (r, after) = save_runtime_history m in
      ap (λ (n : Manager F). n.runtime_history) (continue-pure r tt after) ∙ history-save m
  finish_history false m = refl

  load_value_lem :
      (histories : Dict (RuntimeHistory F)) (m : Manager F)
      → AllValues Slow histories
      → IsDistinct histories
      → (load_value (history_data histories) (record m { runtime_history = [] })).1.runtime_history
        ≡ keep has_runs histories
  load_value_lem histories m slow distinct =
      let empty : Manager F = record m { runtime_history = [] } in
      let (n, loaded) = load_entries_lem histories empty slow distinct in
      let entries = entries_of histories in
      let after : Manager F = record m { runtime_history = keep has_runs histories } in
      let parsed =
        >>=-ok (or_raise (as_dict (history_data histories)) type_error)
          (λ es. do
            loaded_count ← load_entries es
            (if ltb 0 loaded_count then (do saved ← save_runtime_history; pure tt) else pure tt))
          empty entries empty (ap (λ l. (ok l, empty)) (of_fields-to_fields entries)) in
      ap (λ (p : Result (Unit {0}) × Manager F). p.1.runtime_history)
        (parsed ∙ >>=-ok (load_entries entries) _ empty n after loaded)
      ∙ finish_history (ltb 0 n) after

  load_from_lem :
      (histories : Dict (RuntimeHistory F)) (m : Manager F)
      → AllValues Slow histories
      → IsDistinct histories
      → (load_from
          (some (history_data histories))
          (record m { runtime_history = [] })).1.runtime_history
        ≡ keep has_runs histories
  load_from_lem [] m slow distinct = refl
  load_from_lem (e ∷ rest) m slow distinct = load_value_lem (e ∷ rest) m slow distinct

  saved_file :
      (m m' : Manager F)
      → m.disk.read_fault (runtime_file m) ≡ none
      → save_runtime_history m ≡ (ok true, m')
      → load_json (runtime_file m') m'.disk ≡ some (history_data m.runtime_history)
  unfolding save_runtime_history
  saved_file m m' readable e =
      let (r, disk) = save_json (runtime_file m) (history_data m.runtime_history) m.disk in
      let written : m' ≡ record m { disk = disk } = ap (λ p. p.1) (sym e) in
      rw written (
        load_json-save_json (runtime_file m) (history_data m.runtime_history) m.disk disk readable
          (λ i. ((e i).0, disk)))

  -- Where the histories are valid, saving them returned True and their file can be read: a manager
  -- that starts on what was saved has the same histories, less those with no run time.
  pub load-save_runtime_history :
      (m m' : Manager F)
      → IsValid m
      → m.disk.read_fault (runtime_file m) ≡ none
      → save_runtime_history m ≡ (ok true, m')
      → (load_runtime_history (record m' { runtime_history = [] })).1.runtime_history
        ≡ keep has_runs m.runtime_history
  unfolding load_runtime_history
  load-save_runtime_history m m' valid readable e =
      ap (λ o. (load_from o (record m' { runtime_history = [] })).1.runtime_history)
        (saved_file m m' readable e)
      ∙ load_from_lem m.runtime_history m' valid.slow valid.distinct
