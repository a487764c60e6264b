-- ===== src/Inspect.antt =====
-- cmd/gokd-mcp/workflows.go: `inspect_struct`, which walks the fields of a type under a budget that all
-- levels share. The engine's `TypeFields` and `TypeSize` are arguments. The budget, which the code
-- passes by pointer, is passed on and returned.
pub mod Budget
use go_kd.Prelude.{
  ℕ, zero, suc, ◌+◌, Bool, true, false, ◌&&◌, ◌||◌, Option, none, some, List, [], ◌∷◌, ltb, length,
  take, if◌then◌else◌,
}
use go_kd.Prelude.Int.{ℤ, negative, above, to_ℕ}
use go_kd.Text.{
  Text, codes, is_empty, trim_space, trim_prefix, has_prefix, has_suffix, cut_at, is_case,
}
use go_kd.Errors.{GoError, other, Result, ok, err}
use go_kd.Events.{hex64}

abbrev pub max_inspect_recurse : ℕ
max_inspect_recurse = 3

abbrev pub max_inspect_fields : ℕ
max_inspect_fields = 1024

-- a field of a type (gokd.go, `Field`)
pub record Field : Type 0 where
  pub name : Text
  pub offset : ℕ
  pub size : ℕ
  pub type_name : Text

-- `inspectField` and the slices of them
mutual
  pub data InspectField : Type 0 where
    field : (name : Text) (offset : ℕ) (type_name : Text) → InspectFields → InspectField

  pub data InspectFields : Type 0 where
    nil : InspectFields
    cons : InspectField → InspectFields → InspectFields

abbrev pub scalars : List Text
scalars =
    codes "void"
    ∷ codes "int"
    ∷ codes "long"
    ∷ codes "short"
    ∷ codes "char"
    ∷ codes "bool"
    ∷ codes "unsigned int"
    ∷ codes "unsigned long"
    ∷ codes "unsigned short"
    ∷ codes "unsigned char"
    ∷ codes "int8"
    ∷ codes "int16"
    ∷ codes "int32"
    ∷ codes "int64"
    ∷ codes "uint8"
    ∷ codes "uint16"
    ∷ codes "uint32"
    ∷ codes "uint64"
    ∷ codes "float"
    ∷ codes "double"
    ∷ []

unfoldable pub should_recurse_type : Text → Bool
should_recurse_type text =
    let t = trim_space text in
    if is_empty t
    then false
    else if has_suffix t (codes "*")
    then false
    else if is_case t scalars
    then false
    else has_prefix t (codes "_") || has_prefix t (codes "struct ")

unfoldable pub split_type_name : Text → Result (Text × Text)
split_type_name qual = elim (cut_at b'!' (trim_space qual)) [
  | none ↦ err (other (codes "type_name must be qualified as 'module!type'"))
  | some (module_name, type_name) ↦
      if is_empty module_name
      then err (other (codes "type_name must be qualified as 'module!type'"))
      else ok (module_name, type_name)
]

-- What a walk returns: the fields and whether it was cut short, or an error; and the budget left.
abbrev pub Walked : Type 0
Walked = Result (InspectFields × Bool) × ℕ

-- the walk one level below, if there is depth left
abbrev pub Descent : Type 0
Descent = Option (Text → ℕ → Walked)

-- A failed walk leaves a field without children.
abbrev pub kept_children : Walked → InspectFields × Bool × ℕ
kept_children (err e, left) = (nil, false, left)
kept_children (ok (children, cut), left) = (children, cut, left)

-- the children of a field, whether they were cut short, and the budget left
unfoldable pub children_of : Descent → Text → ℕ → InspectFields × Bool × ℕ
children_of none type_name budget = (nil, false, budget)
children_of (some walk) type_name budget =
    if should_recurse_type type_name
    then kept_children (walk (trim_prefix type_name (codes "struct ")) budget)
    else (nil, false, budget)

-- the loop over the fields, with its `break` when the budget is used up
unfoldable pub inspect_loop : Descent → List Field → ℕ → InspectFields × Bool × ℕ
inspect_loop descent [] budget = (nil, false, budget)
inspect_loop descent (f ∷ fs) zero = (nil, true, zero)
inspect_loop descent (f ∷ fs) (suc budget) =
    let (children, cut, left) = children_of descent f.type_name budget in
    let (rest, truncated, left') = inspect_loop descent fs left in
    (cons (field f.name f.offset f.type_name children) rest, cut || truncated, left')

module _ (type_fields : Text → Text → Result (List Field)) where
  unfoldable pub walk_level : Descent → Text → Text → ℕ → Walked
  walk_level descent module_name type_name zero = (ok (nil, true), zero)
  walk_level descent module_name type_name (suc budget) = elim (type_fields module_name type_name) [
    | err e ↦ (err e, suc budget)
    | ok raw ↦
        let kept = if ltb (suc budget) (length raw) then take (suc budget) raw else raw in
        let (fields, truncated, left) = inspect_loop descent kept (suc budget) in
        (ok (fields, truncated), left)
  ]

  -- `walkInspectFields`, by the remaining depth
  unfoldable pub walk_inspect_fields : ℕ → Text → Text → ℕ → Walked
  walk_inspect_fields zero module_name = walk_level none module_name
  walk_inspect_fields (suc depth) module_name =
      walk_level (some (walk_inspect_fields depth module_name)) module_name

unfoldable pub recurse_depth : ℤ → ℕ
recurse_depth recurse =
    if negative recurse
    then 0
    else if above recurse max_inspect_recurse
    then max_inspect_recurse
    else to_ℕ recurse

pub record InspectStructOutput : Type 0 where
  pub type_name : Text
  pub address : Text
  pub size_bytes : ℕ
  pub fields : InspectFields
  pub truncated : Bool

-- `address` is what `parseHexUint64` makes of the input.
unfoldable pub inspect_struct :
    (Text → Text → Result (List Field))
    → (Text → Text → Result ℕ)
    → Option GoError
    → Result ℕ
    → Text
    → ℤ
    → Result InspectStructOutput
inspect_struct type_fields type_size (some e) address qual recurse = err e
inspect_struct type_fields type_size none (err e) qual recurse = err e
inspect_struct type_fields type_size none (ok address) qual recurse = elim (split_type_name qual) [
  | err e ↦ err e
  | ok (module_name, type_name) ↦
      let (result, left) =
        walk_inspect_fields type_fields (recurse_depth recurse) module_name type_name
          max_inspect_fields in
      elim result [
        | err e ↦ err e
        | ok (fields, truncated) ↦ ok (record {
          type_name = qual;
          address = hex64 address;
          size_bytes = elim (type_size module_name type_name) [ ok n ↦ n | err e ↦ 0 ];
          fields = fields;
          truncated = truncated;
        })
      ]
]
