-- ===== src/Options/Keeps.antt =====
-- What every option keeps, and the defaults have, a parsed namespace has.
pub mod Tokens
pub use Tokens.{Gathered, KeepsTaking, KeepsGathering, Keeps, AllKeep}
use commons_operator.Options.Keeps.Tokens.{TokenKeeps, classify-TokenKeeps}
use commons_operator.Prelude.{
  ◌≡◌, refl, subst, Bool, true, false, Option, none, some, List, [], ◌∷◌, Text, codes, All,
  All-append, keep, starts_with, has_char, strip_prefix, text_eq, ◌||◌, Option-cases, sym, ◌∙◌,
  if◌then◌else◌, ◌⊎◌, inl, inr, Bool-cases, ◌==◌,
}
use commons_operator.Prelude.Dict.{Dict, lookup}
use commons_operator.Options.Number.{is_negative_number}
use commons_operator.Options.{
  Action, exits, sets, takes, gathers, Token, argument, ambiguous, unknown, option, attached,
  Pending, accept_as, settle_as, nothing, one, many, State, Parsed, parsed, exit, and_then,
  or_error, split_eq, of_matches, abbreviated, of_short, of_value, of_split, of_dash, classify,
  accept, settle, perform, take_token, step, run, ready, finish, parse,
}

-- What a program goes on with.
abbrev pub Ensures : {A : Type 0} → (A → Type 0) → Parsed A → Type 0
Ensures P (parsed a) = P a
Ensures P (exit code) = Unit

pub Ensures_parsed :
    {A : Type 0} (P : A → Type 0) {p : Parsed A} {a : A} → p ≡ parsed a → Ensures P p → P a
Ensures_parsed P e h = subst (Ensures P) e h

Ensures-and_then :
    {A B : Type 0} (P : A → Type 0) (Q : B → Type 0) (p : Parsed A) (f : A → Parsed B)
    → Ensures P p
    → ((a : A) → P a → Ensures Q (f a))
    → Ensures Q (and_then p f)
Ensures-and_then P Q (parsed a) f h k = k a h
Ensures-and_then P Q (exit code) f h k = tt

Ensures-if :
    {A : Type 0} (P : A → Type 0) (b : Bool) (x y : Parsed A)
    → (b ≡ true → Ensures P x)
    → (b ≡ false → Ensures P y)
    → Ensures P (if b then x else y)
Ensures-if P true x y hx hy = hx refl
Ensures-if P false x y hx hy = hy refl

module _ {N : Type 0} (flags : Dict (Action N)) (P : N → Type 0) where
  abbrev WaitsFor : Pending N → Type 0
  WaitsFor nothing = Unit
  WaitsFor (one read) = KeepsTaking flags P read
  WaitsFor (many store values) =
      KeepsGathering flags P store × All (λ v. classify flags v ≡ argument) values

  record IsSound (s : State N) : Type 0 where
    names_keep : P s.names
    pending_keeps : WaitsFor s.pending
    -- Nothing waits behind `--`.
    ended_idle : s.ended ≡ true → s.pending ≡ nothing

  -- A state in which nothing waits.
  abbrev Settled : Bool → State N → Type 0
  Settled ended t = IsSound t × (t.pending ≡ nothing) × (t.ended ≡ ended)

  module _ (all_keep : AllKeep flags P flags) where
    keep_taken :
        (read : Text → N → Option N) (text : Text) (s : State N)
        → KeepsTaking flags P read
        → P s.names
        → Ensures IsSound (
            and_then
              (or_error (read text s.names))
              (λ names. parsed (record s { names = names; pending = nothing })))
    keep_taken read text s k h = elim (Option-cases (read text s.names)) [
      | inl e ↦ rw e tt
      | inr (n, e) ↦
          rw e (record {
            names_keep = k text s.names n h e;
            pending_keeps = tt;
            ended_idle = λ x. refl;
          })
    ]

    -- Where the text is an argument, or no option waits.
    accept_as-IsSound :
        (p : Pending N) (text : Text) (s : State N)
        → (classify flags text ≡ argument) ⊎ (p ≡ nothing)
        → (s.ended ≡ true → p ≡ nothing)
        → s.pending ≡ p
        → P s.names
        → WaitsFor p
        → Ensures IsSound (accept_as p text s)
    accept_as-IsSound nothing text s w idle same h k = record {
      names_keep = h;
      pending_keeps = subst WaitsFor (sym same) tt;
      ended_idle = λ x. same;
    }
    accept_as-IsSound (one read) text s w idle same h k = keep_taken read text s k h
    accept_as-IsSound (many store values) text s (inl w) idle same h k = record {
      names_keep = h;
      pending_keeps =
          (k.0, All-append (λ v. classify flags v ≡ argument) values (text ∷ []) k.1 (w, tt));
      ended_idle = λ x. cc (idle x);
    }
    accept_as-IsSound (many store values) text s (inr w) idle same h k = cc w

    settle_as-IsSound :
        (p : Pending N) (s : State N)
        → s.pending ≡ p
        → P s.names
        → WaitsFor p
        → Ensures (Settled s.ended) (settle_as p s)
    settle_as-IsSound nothing s same h k = (
      record {
        names_keep = h;
        pending_keeps = subst WaitsFor (sym same) tt;
        ended_idle = λ x. same;
      },
      same,
      refl,
    )
    settle_as-IsSound (one read) s same h k = tt
    settle_as-IsSound (many store values) s same h k = (
      record {
        names_keep = k.0 values s.names h (inr k.1);
        pending_keeps = tt;
        ended_idle = λ x. refl;
      },
      refl,
      refl,
    )

    accept-IsSound :
        (text : Text) (s : State N)
        → (classify flags text ≡ argument) ⊎ (s.pending ≡ nothing)
        → IsSound s
        → Ensures IsSound (accept text s)
    unfolding accept
    accept-IsSound text s w h =
        accept_as-IsSound s.pending text s w h.ended_idle refl h.names_keep h.pending_keeps

    settle-Settled : (s : State N) → IsSound s → Ensures (Settled s.ended) (settle s)
    unfolding settle
    settle-Settled s h = settle_as-IsSound s.pending s refl h.names_keep h.pending_keeps

    perform-IsSound :
        (action : Action N) (value : Option Text) (t : State N)
        → Keeps flags P action
        → Settled false t
        → Ensures IsSound (perform action value t)
    unfolding perform
    perform-IsSound exits none t k h = tt
    perform-IsSound exits (some text) t k h = tt
    perform-IsSound (sets f) none t k h = record {
      names_keep = k t.names h.0.names_keep;
      pending_keeps = h.0.pending_keeps;
      ended_idle = h.0.ended_idle;
    }
    perform-IsSound (sets f) (some text) t k h = tt
    perform-IsSound (takes read) none t k h = record {
      names_keep = h.0.names_keep;
      pending_keeps = k;
      ended_idle = λ x. cc (x, h.2);
    }
    perform-IsSound (takes read) (some text) t k h = keep_taken read text t k h.0.names_keep
    perform-IsSound (gathers store) none t k h = record {
      names_keep = h.0.names_keep;
      pending_keeps = (k, tt);
      ended_idle = λ x. cc (x, h.2);
    }
    perform-IsSound (gathers store) (some text) t k h = record {
      names_keep = k (text ∷ []) t.names h.0.names_keep (inl (text, refl));
      pending_keeps = h.0.pending_keeps;
      ended_idle = h.0.ended_idle;
    }

    -- What is not recognised changes nothing else.
    extras-IsSound : (t : State N) → IsSound t → IsSound (record t { extras = true })
    extras-IsSound t h = record {
      names_keep = h.names_keep;
      pending_keeps = h.pending_keeps;
      ended_idle = h.ended_idle;
    }

    ended-IsSound :
        (t : State N)
        → IsSound t
        → t.pending ≡ nothing
        → IsSound (record t { extras = true; ended = true })
    ended-IsSound t h e = record {
      names_keep = h.names_keep;
      pending_keeps = h.pending_keeps;
      ended_idle = λ x. e;
    }

    take_token-IsSound :
        (text : Text) (tok : Token N) (s : State N)
        → classify flags text ≡ tok
        → TokenKeeps flags P tok
        → s.ended ≡ false
        → IsSound s
        → Ensures IsSound (take_token text tok s)
    unfolding take_token
    take_token-IsSound text argument s e k live h = accept-IsSound text s (inl e) h
    take_token-IsSound text ambiguous s e k live h = tt
    take_token-IsSound text unknown s e k live h =
        Ensures-and_then (Settled s.ended) IsSound (settle s) _ (settle-Settled s h)
          (λ t g. extras-IsSound t g.0)
    take_token-IsSound text (option action value) s e k live h =
        Ensures-and_then (Settled s.ended) IsSound (settle s) _ (settle-Settled s h)
          (λ t g. perform-IsSound action value t k (g.0, g.1, g.2 ∙ live))
    take_token-IsSound text (attached rest) s e k live h =
        Ensures-and_then (Settled s.ended) IsSound (settle s) _ (settle-Settled s h) (λ t g. tt)

    step-IsSound : (s : State N) (text : Text) → IsSound s → Ensures IsSound (step flags s text)
    unfolding step
    step-IsSound s text h =
        Ensures-if IsSound s.ended _ _ (λ over. accept-IsSound text s (inr (h.ended_idle over)) h)
          (λ live.
            Ensures-if IsSound (text_eq text (codes "--")) _ _
              (λ end.
                Ensures-and_then (Settled s.ended) IsSound (settle s) _ (settle-Settled s h)
                  (λ t g. ended-IsSound t g.0 g.1))
              (λ other.
                take_token-IsSound text (classify flags text) s refl
                  (classify-TokenKeeps flags P all_keep text) live h))

    run-IsSound : (argv : List Text) (s : State N) → IsSound s → Ensures IsSound (run flags s argv)
    unfolding run
    run-IsSound [] s h = h
    run-IsSound (text ∷ rest) s h =
        Ensures-and_then IsSound IsSound (step flags s text) _ (step-IsSound s text h)
          (λ t g. run-IsSound rest t g)

    finish-Ensures : (s : State N) → IsSound s → Ensures P (finish s)
    unfolding finish
    finish-Ensures s h =
        Ensures-and_then (Settled s.ended) P (settle s) _ (settle-Settled s h)
          (λ t g. Ensures-if P t.extras _ _ (λ x. tt) (λ x. g.0.names_keep))

    -- A predicate that the defaults satisfy and every option keeps holds of what is parsed.
    pub parse-Ensures :
        (defaults : N) (argv : List Text) → P defaults → Ensures P (parse flags defaults argv)
    unfolding parse
    parse-Ensures defaults argv h =
        Ensures-and_then IsSound P (run flags (ready defaults) argv) finish
          (run-IsSound argv (ready defaults)
            (record { names_keep = h; pending_keeps = tt; ended_idle = λ x. refl }))
          finish-Ensures
