-- ===== src/ValueKinds.antt =====
-- gokd.go: the names of the kinds of values, `ValueKindString` and `ParseValueKind`. The cases of the two
-- `switch` statements are one table, in their order. A kind is a `uint32`.
pub mod Names
use go_kd.Prelude.{ℕ, ◌||◌, Bool, Option, none, some, List, [], ◌∷◌, ◌++◌, ◌==◌, if◌then◌else◌}
use go_kd.Text.{Text, codes, is_empty, text_eq, to_lower, trim_space, format_d}

abbrev pub value_invalid : ℕ
value_invalid = 0

unfoldable pub kind_names : List (ℕ × Text)
kind_names =
    (0, codes "invalid")
    ∷ (1, codes "int8")
    ∷ (2, codes "int16")
    ∷ (3, codes "int32")
    ∷ (4, codes "int64")
    ∷ (5, codes "float32")
    ∷ (6, codes "float64")
    ∷ (7, codes "float80")
    ∷ (8, codes "float82")
    ∷ (9, codes "float128")
    ∷ (10, codes "vector64")
    ∷ (11, codes "vector128")
    ∷ []

unfoldable pub name_of_kind : ℕ → List (ℕ × Text) → Option Text
name_of_kind v [] = none
name_of_kind v ((k, name) ∷ m) = if k == v then some name else name_of_kind v m

unfoldable pub kind_of_name : Text → List (ℕ × Text) → Option ℕ
kind_of_name name [] = none
kind_of_name name ((k, n) ∷ m) = if text_eq name n then some k else kind_of_name name m

unfoldable pub value_kind_string : ℕ → Text
value_kind_string v = elim (name_of_kind v kind_names) [
  | some name ↦ name
  | none ↦ codes "unknown(" ++ format_d v ++ codes ")"
]

-- `none` is `(ValueInvalid, false)`.
unfoldable pub parse_value_kind : Text → Option ℕ
parse_value_kind text =
    let name = to_lower (trim_space text) in
    if is_empty name then some value_invalid else kind_of_name name kind_names
