-- ===== src/Inspect/Budget.antt =====
-- The budget counts the fields of all levels, and bounds the answer.
use go_kd.Prelude.{
  ℕ, zero, suc, ◌+◌, ◌-◌, ◌≤◌, ◌<◌, max, ◌≡◌, refl, ap, ◌∙◌, inl, inr, false, Option, none, some,
  List, [], ◌∷◌, arith, ltb, length, take, length-take, Bool-cases, if◌then◌else◌, lt→ltb,
}
use go_kd.Prelude.Int.{ℤ, pos, negsuc}
use go_kd.Text.{Text}
use go_kd.Errors.{GoError, Result, ok, err}
use go_kd.Events.{hex64}
use go_kd.Inspect.{
  Field, InspectField, field, InspectFields, nil, cons, Walked, Descent, should_recurse_type,
  kept_children, children_of, inspect_loop, walk_level, walk_inspect_fields, recurse_depth,
  max_inspect_fields, split_type_name, InspectStructOutput, inspect_struct,
}

-- the number of fields on all levels
unfoldable mutual
  pub count_fields : InspectFields → ℕ
  count_fields nil = 0
  count_fields (cons f fs) = count_field f + count_fields fs

  pub count_field : InspectField → ℕ
  count_field (field name offset type_name children) = suc (count_fields children)

-- the number of levels
unfoldable mutual
  pub levels : InspectFields → ℕ
  levels nil = 0
  levels (cons f fs) = max (levels_of f) (levels fs)

  pub levels_of : InspectField → ℕ
  levels_of (field name offset type_name children) = suc (levels children)

-- A walk takes from the budget what it returns, has at most so many levels, and a failed one takes
-- nothing.
abbrev Spends : ℕ → ℕ → Walked → Type 0
Spends depth budget (err e, left) = left ≡ budget
Spends depth budget (ok (fields, cut), left) =
    (count_fields fields + left ≡ budget) × (levels fields ≤ depth)

-- The same of a walk below, if there is one.
abbrev Below : ℕ → Descent → Type 0
Below depth none = Unit
Below depth (some walk) =
    (type_name : Text) (budget : ℕ) → Spends depth budget (walk type_name budget)

kept_children-spent :
    (depth budget : ℕ) (w : Walked)
    → Spends depth budget w
    → (count_fields (kept_children w).0 + (kept_children w).2 ≡ budget)
      × (levels (kept_children w).0 ≤ depth)
unfolding count_fields levels
kept_children-spent depth budget (err e, left) h = (omega arith, omega arith)
kept_children-spent depth budget (ok (children, cut), left) h = h

children_of-spent :
    (depth : ℕ) (descent : Descent) (type_name : Text) (budget : ℕ)
    → Below depth descent
    → (count_fields (children_of descent type_name budget).0
          + (children_of descent type_name budget).2
        ≡ budget)
      × (levels (children_of descent type_name budget).0 ≤ depth)
unfolding children_of count_fields levels
children_of-spent depth none type_name budget h = (omega arith, omega arith)
children_of-spent depth (some walk) type_name budget h =
    elim (Bool-cases (should_recurse_type type_name)) [
      | inl e ↦ rw e (kept_children-spent depth budget _ (h _ budget))
      | inr e ↦ rw e (omega arith, omega arith)
    ]

inspect_loop-spent :
    (depth : ℕ) (descent : Descent) (fs : List Field) (budget : ℕ)
    → Below depth descent
    → (count_fields (inspect_loop descent fs budget).0 + (inspect_loop descent fs budget).2
        ≡ budget)
      × (levels (inspect_loop descent fs budget).0 ≤ suc depth)
unfolding inspect_loop count_fields levels
inspect_loop-spent depth descent [] budget h = (omega arith, omega arith)
inspect_loop-spent depth descent (f ∷ fs) zero h = (omega arith, omega arith)
inspect_loop-spent depth descent (f ∷ fs) (suc budget) h =
    let (spent, low) = children_of-spent depth descent f.type_name budget h in
    let (spent', low') =
      inspect_loop-spent depth descent fs (children_of descent f.type_name budget).2 h in
    (omega arith, omega arith)

module _ (type_fields : Text → Text → Result (List Field)) where
  walk_level-Spends :
      (depth : ℕ) (descent : Descent) (module_name type_name : Text) (budget : ℕ)
      → Below depth descent
      → Spends (suc depth) budget (walk_level type_fields descent module_name type_name budget)
  unfolding walk_level count_fields levels
  walk_level-Spends depth descent module_name type_name zero h = (omega arith, omega arith)
  walk_level-Spends depth descent module_name type_name (suc budget) h =
      cases (type_fields module_name type_name)
    where
      cases :
          (answer : Result (List Field))
          → Spends (suc depth) (suc budget) (elim answer as (λ _. Walked) [
            | err e ↦ (err e, suc budget)
            | ok raw ↦
                let kept = if ltb (suc budget) (length raw) then take (suc budget) raw else raw in
                let (fields, truncated, left) = inspect_loop descent kept (suc budget) in
                (ok (fields, truncated), left)
          ])
      cases (err e) = refl
      cases (ok raw) = inspect_loop-spent depth descent _ (suc budget) h

  -- Whatever fields the engine reports, a walk that succeeds returns as many fields, over all levels, as
  -- it takes from the budget, on at most one level more than its depth; one that fails takes nothing.
  pub walk_inspect_fields-Spends :
      (depth : ℕ) (module_name type_name : Text) (budget : ℕ)
      → Spends
          (suc depth)
          budget
          (walk_inspect_fields type_fields depth module_name type_name budget)
  unfolding walk_inspect_fields
  walk_inspect_fields-Spends zero module_name type_name budget =
      walk_level-Spends 0 none module_name type_name budget tt
  walk_inspect_fields-Spends (suc depth) module_name type_name budget =
      walk_level-Spends (suc depth) (some (walk_inspect_fields type_fields depth module_name))
        module_name type_name budget
        (λ type_name budget. walk_inspect_fields-Spends depth module_name type_name budget)

-- What an answer of `inspect_struct` is bounded by.
abbrev pub IsBounded : Result InspectStructOutput → Type 0
IsBounded (err e) = Unit
IsBounded (ok out) = (count_fields out.fields ≤ 1024) × (levels out.fields ≤ 4)

recurse_depth-le : (recurse : ℤ) → recurse_depth recurse ≤ 3
unfolding recurse_depth
recurse_depth-le (pos n) = ground arith
recurse_depth-le (negsuc n) = ground arith

-- Whatever types the engine reports, also types that hold themselves, an answer of `inspect_struct`
-- holds at most 1024 fields over all its levels, and at most four levels.
pub inspect_struct-IsBounded :
    (type_fields : Text → Text → Result (List Field)) (type_size : Text → Text → Result ℕ)
    (context : Option GoError) (address : Result ℕ) (qual : Text) (recurse : ℤ)
    → IsBounded (inspect_struct type_fields type_size context address qual recurse)
unfolding inspect_struct
inspect_struct-IsBounded type_fields type_size (some e) address qual recurse = tt
inspect_struct-IsBounded type_fields type_size none (err e) qual recurse = tt
inspect_struct-IsBounded type_fields type_size none (ok address) qual recurse =
    elim (split_type_name qual) as (λ split. IsBounded (answer split)) [
      | err e ↦ tt
      | ok (m, t) ↦
          bounded m t
            (walk_inspect_fields type_fields (recurse_depth recurse) m t max_inspect_fields)
            (walk_inspect_fields-Spends type_fields (recurse_depth recurse) m t max_inspect_fields)
    ]
  where
    finish : Text → Text → Walked → Result InspectStructOutput
    finish m t walked = elim walked.0 [
      | err e ↦ err e
      | ok (fields, truncated) ↦ ok (record {
        type_name = qual;
        address = hex64 address;
        size_bytes = elim (type_size m t) [ ok n ↦ n | err e ↦ 0 ];
        fields = fields;
        truncated = truncated;
      })
    ]

    answer : Result (Text × Text) → Result InspectStructOutput
    answer split = elim split [
      | err e ↦ err e
      | ok (m, t) ↦
          finish m t
            (walk_inspect_fields type_fields (recurse_depth recurse) m t max_inspect_fields)
    ]

    bounded :
        (m t : Text) (walked : Walked)
        → Spends (suc (recurse_depth recurse)) max_inspect_fields walked
        → IsBounded (finish m t walked)
    bounded m t (err e, left) h = tt
    bounded m t (ok (fields, cut), left) h = (omega arith, omega (arith, recurse_depth-le recurse))

inspect_loop-whole :
    (fs : List Field) (budget : ℕ)
    → length fs ≤ budget
    → (fields : InspectFields) × (inspect_loop none fs budget ≡ (fields, false, budget - length fs))
      × (count_fields fields ≡ length fs)
unfolding inspect_loop children_of count_fields
inspect_loop-whole [] budget h = (nil, ap (λ n. (nil, false, n)) (omega arith), refl)
inspect_loop-whole (f ∷ fs) zero h = absurd (omega arith)
inspect_loop-whole (f ∷ fs) (suc budget) h =
    let (fields, e, n) = inspect_loop-whole fs budget (omega arith) in
    let left : budget - length fs ≡ suc budget - suc (length fs) = omega arith in
    (
      cons (field f.name f.offset f.type_name nil) fields,
      ap (λ r. (cons (field f.name f.offset f.type_name nil) r.0, r.1, r.2)) e
          ∙ ap (λ n. (cons (field f.name f.offset f.type_name nil) fields, false, n)) left,
      omega arith,
    )

-- A type with more fields than the budget is cut to the budget, and a walk without depth does not say
-- so: its flag is false.
pub walk_inspect_fields-cut :
    (type_fields : Text → Text → Result (List Field)) (module_name type_name : Text)
    (raw : List Field) (budget : ℕ)
    → type_fields module_name type_name ≡ ok raw
    → 0 < budget
    → budget < length raw
    → (fields : InspectFields) × (walk_inspect_fields type_fields 0 module_name type_name budget
        ≡ (ok (fields, false), 0))
      × (count_fields fields ≡ budget)
unfolding walk_inspect_fields walk_level
walk_inspect_fields-cut type_fields module_name type_name raw zero e some_budget more =
    absurd (omega arith)
walk_inspect_fields-cut type_fields module_name type_name raw (suc budget) e some_budget more =
    let size : length (take (suc budget) raw) ≡ suc budget =
      length-take (suc budget) raw ∙ omega arith in
    let (fields, walked, n) =
      inspect_loop-whole (take (suc budget) raw) (suc budget) (omega arith) in
    let left : suc budget - length (take (suc budget) raw) ≡ 0 = omega arith in
    (fields, rw (e, lt→ltb (suc budget) (length raw) more, walked, left, walk_level), n ∙ size)
