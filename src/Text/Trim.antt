-- ===== src/Text/Trim.antt =====
-- Trimming a text that has nothing to trim, and its end.
use go_kd.Prelude.{ℕ, ◌≡◌, refl, Bool, true, false, [], ◌∷◌, ◌++◌, arith}
use go_kd.Text.{Text, trim_left, trim_right, text_eq}

-- No character of the text passes the test.
abbrev pub Free : (ℕ → Bool) → Text → Type 0
Free p [] = Unit
Free p (c ∷ s) = (p c ≡ false) × Free p s

pub trim_right-Free : (p : ℕ → Bool) (s : Text) → Free p s → trim_right p s ≡ s
unfolding trim_right
trim_right-Free p [] h = refl
trim_right-Free p (c ∷ s) h = ground (arith, trim_right-Free p s h.1)

pub trim_left-Free : (p : ℕ → Bool) (s : Text) → Free p s → trim_left p s ≡ s
unfolding trim_left
trim_left-Free p [] h = refl
trim_left-Free p (c ∷ s) h = ground arith

-- A character at the end that is to be trimmed goes.
pub trim_right-snoc :
    (p : ℕ → Bool) (s : Text) (c : ℕ) → p c ≡ true → trim_right p (s ++ (c ∷ [])) ≡ trim_right p s
unfolding trim_right
trim_right-snoc p [] c h = ground arith
trim_right-snoc p (d ∷ s) c h = ground (arith, trim_right-snoc p s c h)

pub text_eq_refl : (s : Text) → text_eq s s ≡ true
unfolding text_eq
text_eq_refl [] = refl
text_eq_refl (c ∷ s) = ground (arith, text_eq_refl s)

pub text_eq→eq : (s t : Text) → text_eq s t ≡ true → s ≡ t
unfolding text_eq
text_eq→eq [] [] h = refl
text_eq→eq [] (d ∷ t) h = ground arith
text_eq→eq (c ∷ s) [] h = ground arith
text_eq→eq (c ∷ s) (d ∷ t) h = ground (arith, text_eq→eq s t)
