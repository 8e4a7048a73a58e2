-- ===== src/Runner/State/Latest.antt =====
-- The state file that `find_latest_state_file` finds.
use commons_operator.Prelude.{
  ◌≡◌, refl, sym, ap, subst, ◌⊎◌, inl, inr, Bool, none, some, List, [], ◌∷◌, Text, All, Bool-cases,
  if◌then◌else◌,
}
use commons_operator.Float.{Float, IsOrdered, ◌≼◌}
use commons_operator.World.{World}
use commons_operator.Manager.{Manager}
use commons_operator.Float.Order.{lt_le, not-lt-le}
use commons_operator.Runner.State.{newest, latest_of, find_latest_state_file}

-- A path that stands in the list.
abbrev pub Occurs : Text → List Text → Type 0
Occurs path [] = ⊥
Occurs path (x ∷ xs) = (path ≡ x) ⊎ Occurs path xs

module _ {F : Type 0} ⦃d : Float F⦄ (laws : IsOrdered F) (world : World F)
    (times : (path : Text) → world.mtime path ≼ world.mtime path) where
  abbrev pub NotNewer : Text → Text → Type 0
  NotNewer path other = world.mtime other ≼ world.mtime path

  newest_lem :
      (held : Text) (rest : List Text)
      → Occurs (newest world held rest) (held ∷ rest)
        × All (NotNewer (newest world held rest)) (held ∷ rest)
  unfolding newest
  newest_lem held [] = (inl refl, (times held, tt))
  newest_lem held (path ∷ rest) = elim (Bool-cases (d.lt (world.mtime held) (world.mtime path))) [
    | inl e ↦
        let (found, (above, all)) = newest_lem path rest in
        subst Fits (sym (ap round e)) (
          inr found,
          (
            laws.le_trans _ _ _
                (lt_le laws (world.mtime held) (world.mtime path) (times held) (times path) e)
                above,
            (above, all),
          ),
        )
    | inr e ↦
        let (found, (above, all)) = newest_lem held rest in
        subst Fits (sym (ap round e)) (
          behind found,
          (
            above,
            (
              laws.le_trans _ _ _
                  (not-lt-le laws (world.mtime held) (world.mtime path) (times held) (times path) e)
                  above,
              all,
            ),
          ),
        )
  ]
    where
      round : Bool → Text
      round b = newest world (if b then path else held) rest

      Fits : Text → Type 0
      Fits p = Occurs p (held ∷ path ∷ rest) × All (NotNewer p) (held ∷ path ∷ rest)

      behind : {p : Text} → Occurs p (held ∷ rest) → Occurs p (held ∷ path ∷ rest)
      behind (inl e) = inl e
      behind (inr e) = inr (inr e)

  latest_of_lem :
      (files : List Text)
      → (files ≡ []) × (latest_of world files ≡ none)
        ⊎ ((path : Text) × (latest_of world files ≡ some path)
            × Occurs path files
            × All (NotNewer path) files)
  latest_of_lem [] = inl (refl, refl)
  latest_of_lem (path ∷ rest) =
      let (found, all) = newest_lem path rest in inr (newest world path rest, refl, found, all)

  -- Where the floats are ordered as the interface says and no time of a file is NaN: either there is no
  -- state file and none is found, or one of the files is found and none is newer.
  pub find_latest_state_file_lem :
      (m : Manager F)
      → (world.state_files m.output_dir ≡ []) × (find_latest_state_file world m ≡ none)
        ⊎ ((path : Text) × (find_latest_state_file world m ≡ some path)
            × Occurs path (world.state_files m.output_dir)
            × All (NotNewer path) (world.state_files m.output_dir))
  unfolding find_latest_state_file
  find_latest_state_file_lem m = latest_of_lem (world.state_files m.output_dir)
