-- ===== src/Launcher/Main/Passed/Installs.antt =====
-- What an installation that passed says.
use commons_operator.Prelude.{
  ◌≡◌, refl, sym, ap, subst, ◌∙◌, Bool, true, false, not, List, [], ◌∷◌, ◌++◌, Option, none, some,
  Text, codes, length, is_in, ◌||◌, ◌⊎◌, inl, inr,
}
use commons_operator.Prelude.Dict.{Dict}
use commons_operator.Exec.{Result, ok, raised, ◌>>=◌, >>=-eq-ok}
use commons_operator.Launcher.{World, Command, Completed, Session, start, decode}
use commons_operator.Launcher.Steps.{
  passes_check, lower, stackablectl_cmd, fail_if, maybe_install_release,
}
use commons_operator.Launcher.Main.{
  lift, contents_for, make_file, patch, keep_result, with_release_file,
}

module _ (world : World) where
  -- An installation that passed: stackablectl ended with 0, and nothing that it wrote to stderr has
  -- an error in it.
  abbrev pub Installs : Text → Option Text → List Command → List Command → Type 0
  Installs path preset before commands =
      (completed : Completed) × (stderr : Text) × (commands
        ≡ before ++ stackablectl_cmd path preset ∷ [])
      × (world.process (length before) ≡ ok completed)
      × (completed.stderr ≡ some stderr)
      × ((not (passes_check completed) || is_in (codes "error") (lower stderr)) ≡ false)

  fail_if-false : (b : Bool) (s t : Session) → fail_if b s ≡ (ok tt, t) → (b ≡ false) × (s ≡ t)
  fail_if-false true s t h = cc (ap (λ p. p.0) h)
  fail_if-false false s t h = (refl, ap (λ p. p.1) h)

  decode-passed :
      (o : Option Text) (s t : Session) (text : Text)
      → decode o s ≡ (ok text, t)
      → (o ≡ some text) × (s ≡ t)
  decode-passed none s t text h = cc (ap (λ p. p.0) h)
  decode-passed (some x) s t text h = (cc (ap (λ p. p.0) h), ap (λ p. p.1) h)

  install-Installs :
      (path : Text) (preset : Option Text) (s t : Session)
      → maybe_install_release world false path preset s ≡ (ok tt, t)
      → Installs path preset s.commands t.commands
  unfolding maybe_install_release start
  install-Installs path preset s t h =
      let (c, u, e, k) = >>=-eq-ok (start world (stackablectl_cmd path preset)) _ s h in
      let (text, v, e', k') = >>=-eq-ok (decode c.stderr) _ u k in
      let (decoded, same) = decode-passed c.stderr u v text e' in
      let (passed, same') = fail_if-false _ v t k' in
      (
        c,
        text,
        ap (λ (x : Session). x.commands) (sym same' ∙ sym same) ∙ sym (ap (λ p. p.1.commands) e),
        ap (λ p. p.0) e,
        decoded,
        passed,
      )

  make_file-commands :
      (r : Result Text) (b : Bool) (contents : Text) (s : Session)
      → (make_file r b contents s).1.commands ≡ s.commands
  make_file-commands (raised e) b contents s = refl
  make_file-commands (ok path) true contents s = refl
  make_file-commands (ok path) false contents s = refl

  -- Making the release file starts nothing.
  patch-commands :
      (operators : Dict Text) (skip_ops : List Text) (s : Session)
      → (patch world operators skip_ops s).1.commands ≡ s.commands
  unfolding patch
  patch-commands operators skip_ops s = lifted (contents_for world operators skip_ops)
    where
      lifted :
          (c : Result Text)
          → ((lift c >>= λ contents. make_file world.temporary world.writable contents)
              s).1.commands
            ≡ s.commands
      lifted (raised e) = refl
      lifted (ok contents) = make_file-commands world.temporary world.writable contents s

  keep_result-ok : (r c : Result (Unit {0})) → keep_result r c ≡ ok tt → r ≡ ok tt
  keep_result-ok r (ok tt) h = h
  keep_result-ok r (raised e) h = cc h

  -- Unless it is skipped, the installation passed.
  abbrev pub MayInstall : Bool → Option Text → List Command → Type 0
  MayInstall skip preset before =
      (skip ≡ true)
      ⊎ ((path : Text) × (installed : List Command) × Installs path preset before installed)

  installs :
      (skip : Bool) (path : Text) (preset : Option Text) (u : Session) (before : List Command)
      → u.commands ≡ before
      → (maybe_install_release world skip path preset u).0 ≡ ok tt
      → MayInstall skip preset before
  installs true path preset u before same h = inl refl
  installs false path preset u before same h =
      let t = (maybe_install_release world false path preset u).1 in
      inr (
        path,
        t.commands,
        subst (λ cs. Installs path preset cs t.commands) same
            (install-Installs path preset u t (λ i. (h i, t))),
      )

  pub with_release_file-MayInstall :
      (operators : Dict Text) (skip_ops : List Text) (skip : Bool) (preset : Option Text)
      (s t : Session)
      → with_release_file world operators skip_ops
          (λ f. maybe_install_release world skip f preset)
          s
        ≡ (ok tt, t)
      → MayInstall skip preset s.commands
  unfolding with_release_file
  with_release_file-MayInstall operators skip_ops skip preset s t h =
      let (path, u, e, k) = >>=-eq-ok (patch world operators skip_ops) _ s h in
      let same = ap (λ p. p.1.commands) (sym e) ∙ patch-commands operators skip_ops s in
      installs skip path preset u s.commands same (keep_result-ok _ _ (ap (λ p. p.0) k))
