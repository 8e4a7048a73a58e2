-- ===== src/Launcher/Release/Lines.antt =====
-- Single lines of a release file, with and without their newline.
use commons_operator.Prelude.{
  ℕ, ◌≡◌, refl, ap, ◌∙◌, Bool, true, false, ◌||◌, List, [], ◌∷◌, ◌++◌, Text, codes, any, All,
  has_char, has_char-append, is_in, starts_with, arith, ◌==◌,
}
use commons_operator.Launcher.Release.{sub_value, strip_onto, rstrip_newlines}

abbrev pub IsLine : Text → Type 0
IsLine line = has_char 10 line ≡ false

starts_with-newline : (p s : Text) → IsLine p → starts_with p (s ++ 10 ∷ []) ≡ starts_with p s
unfolding starts_with
starts_with-newline [] s h = refl
starts_with-newline (c ∷ p) [] h = ground arith
starts_with-newline (c ∷ p) (d ∷ s) h = ground (arith, starts_with-newline p s)

starts_with-nil : (p : Text) → IsLine p → starts_with p (10 ∷ []) ≡ starts_with p []
starts_with-nil p h = starts_with-newline p [] h

or-false_right : (a b : Bool) → (a || b) ≡ false → b ≡ false
or-false_right true b h = cc h
or-false_right false b h = h

or-true : (a : Bool) → (a || true) ≡ true
or-true true = refl
or-true false = refl

-- A name without a newline occurs in a line exactly if it does without the newline.
pub is_in-newline : (p s : Text) → IsLine p → is_in p (s ++ 10 ∷ []) ≡ is_in p s
unfolding is_in
is_in-newline p [] h = ground (arith, starts_with-nil p h)
is_in-newline p (c ∷ s) h = ground (arith, starts_with-newline p (c ∷ s) h, is_in-newline p s h)

pub any-newline :
    (names : List Text) (line : Text)
    → All IsLine names
    → any (λ op. is_in op (line ++ 10 ∷ [])) names ≡ any (λ op. is_in op line) names
any-newline [] line h = refl
any-newline (op ∷ names) line h = rw (is_in-newline op line h.0, any-newline names line h.1)

strip_onto-cons : (c : ℕ) (s : Text) → IsLine (c ∷ s) → strip_onto c s ≡ c ∷ s
strip_onto-cons c [] h = ground arith
strip_onto-cons c (d ∷ s) h = refl

pub rstrip-newline : (line : Text) → IsLine line → rstrip_newlines (line ++ 10 ∷ []) ≡ line
unfolding rstrip_newlines
rstrip-newline [] h = refl
rstrip-newline (c ∷ s) h =
    ap (strip_onto c) (rstrip-newline s (or-false_right (10 == c) (has_char 10 s) h))
    ∙ strip_onto-cons c s h

-- The version of an operator is put behind its key.
pub sub_value_version :
    (version old : Text)
    → sub_value (codes ": " ++ version) (codes "        operatorVersion: " ++ (old ++ 10 ∷ []))
      ≡ codes "        operatorVersion: " ++ (version ++ 10 ∷ [])
unfolding sub_value
sub_value_version version old = rw (has_char-append 10 old (10 ∷ []), or-true (has_char 10 old))

pub IsLine-append : (s t : Text) → IsLine s → IsLine t → IsLine (s ++ t)
IsLine-append s t hs ht = rw (has_char-append 10 s t, hs, ht)
