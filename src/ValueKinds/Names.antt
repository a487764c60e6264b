-- ===== src/ValueKinds/Names.antt =====
-- The two functions are inverse to each other on the names of the table.
use go_kd.Prelude.{
  ℕ, ◌<◌, ◌≡◌, refl, sym, ap, ◌∙◌, ◌⊎◌, inl, inr, Bool, true, false, ◌&&◌, none, some, List, [],
  ◌∷◌, arith, ◌==◌, Bool-cases, all_below, all_below-at, Option,
}
use go_kd.Text.{Text, is_empty, text_eq, to_lower, trim_space, trim_left, trim_right}
use go_kd.Text.Trim.{text_eq→eq}
use go_kd.ValueKinds.{
  value_invalid, kind_names, name_of_kind, kind_of_name, value_kind_string, parse_value_kind,
}

is_named : List (ℕ × Text) → Bool
is_named [] = true
is_named ((k, n) ∷ m) = text_eq (value_kind_string k) n && is_named m

kind_names-named : is_named kind_names ≡ true
unfolding is_named kind_names value_kind_string name_of_kind text_eq
kind_names-named = refl

kind_of_name-string :
    (name : Text) (v : ℕ) (m : List (ℕ × Text))
    → is_named m ≡ true
    → kind_of_name name m ≡ some v
    → value_kind_string v ≡ name
unfolding kind_of_name is_named
kind_of_name-string name v [] h e = ground arith
kind_of_name-string name v ((k, n) ∷ m) h e = elim (Bool-cases (text_eq name n)) [
  | inl hit ↦
      let same : k ≡ v = ground arith in
      let shown : text_eq (value_kind_string k) n ≡ true = ground arith in
      ap value_kind_string (sym same)
      ∙ text_eq→eq (value_kind_string k) n shown
      ∙ sym (text_eq→eq name n hit)
  | inr miss ↦ kind_of_name-string name v m (ground arith) (ground arith)
]

abbrev is_value : ℕ → Option ℕ → Bool
is_value k none = false
is_value k (some j) = j == k

is_value-eq : (k : ℕ) (o : Option ℕ) → is_value k o ≡ true → o ≡ some k
is_value-eq k none h = ground arith
is_value-eq k (some j) h = let same : j ≡ k = ground arith in ap some same

reads_back : ℕ → Bool
reads_back v = is_value v (parse_value_kind (value_kind_string v))

reads_back-all : all_below reads_back 12 ≡ true
unfolding reads_back kind_names value_kind_string name_of_kind parse_value_kind kind_of_name
    is_empty text_eq to_lower trim_space trim_left trim_right
reads_back-all = refl

-- The name of each of the twelve kinds is parsed back as that kind.
pub parse_value_kind-value_kind_string :
    (v : ℕ) → v < 12 → parse_value_kind (value_kind_string v) ≡ some v
unfolding reads_back
parse_value_kind-value_kind_string v h =
    is_value-eq v _ (all_below-at reads_back 12 v reads_back-all h)

is_empty-nil : (s : Text) → is_empty s ≡ true → s ≡ []
unfolding is_empty
is_empty-nil [] h = refl
is_empty-nil (c ∷ s) h = ground arith

-- A kind that `parse_value_kind` finds for a text is the one with that name: its own name is the text
-- in lower case without the blanks around it, or the text is blank and the kind is the invalid one.
pub parse_value_kind_lem :
    (text : Text) (v : ℕ)
    → parse_value_kind text ≡ some v
    → (value_kind_string v ≡ to_lower (trim_space text))
      ⊎ ((to_lower (trim_space text) ≡ []) × (v ≡ value_invalid))
unfolding parse_value_kind
parse_value_kind_lem text v e = elim (Bool-cases (is_empty (to_lower (trim_space text)))) [
  | inl blank ↦ inr (is_empty-nil _ blank, ground arith)
  | inr full ↦ inl (
      kind_of_name-string (to_lower (trim_space text)) v kind_names kind_names-named (ground arith))
]
