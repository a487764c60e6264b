-- ===== src/TypeWalk/Depth.antt =====
-- How deep the tree of a walk is, whatever the bindings answer: also over memory whose pointers make a
-- circle, and over a field list that names its own type.
use go_kd.Prelude.{
  ℕ, suc, ◌≤◌, max, ◌≡◌, refl, not, ◌&&◌, Option, none, some, List, [], ◌∷◌, ◌==◌, arith, ltb,
}
use go_kd.Text.{Text, codes}
use go_kd.Errors.{GoError, Result, ok, err}
use go_kd.Inspect.{Field}
use go_kd.Session.{Context, Program}
use go_kd.Session.Returns.{Returns, Returns-bind, Returns-any}
use go_kd.Session.Calls
use go_kd.TypeWalk.{
  Visited, Walker, Walked, walk_next, walk_all, TypeValue, TypeValues, value, nil, cons,
}
use go_kd.TypeWalk.Walk.{
  Node, node_with, read_node, dump_ended, dump_fields, dump_node, dump_sized, dump_checked,
  dump_type_rec, renamed, hang,
}

-- the longest chain of children below a value
unfoldable mutual
  pub height : TypeValue → ℕ
  height (value name type_name address size raw error decoded children) = heights children

  pub heights : TypeValues → ℕ
  heights nil = 0
  heights (cons v vs) = max (suc (height v)) (heights vs)

-- a value of a walk, or of a failed one
abbrev pub AtMost : ℕ → TypeValue × Visited → Type 0
AtMost n r = height r.0 ≤ n

abbrev pub Within : ℕ → Result TypeValue → Type 0
Within n (ok v) = height v ≤ n
Within n (err e) = Unit

-- A walker whose values are all that low.
abbrev pub Low : ℕ → Walker → Type 0
Low n walk =
    (f : Field) (container : ℕ) (visited : Visited) → Returns (AtMost n) (walk f container visited)

height-node_with :
    (n : Node) (error : Option GoError) (children : TypeValues)
    → height (node_with n error children) ≡ heights children
unfolding height node_with
height-node_with n error children = refl

height-renamed : (text : Text) (v : TypeValue) → height (renamed text v) ≡ height v
unfolding height
height-renamed text (value name type_name address size raw error decoded children) = refl

walk_next-Returns :
    (P : Walked → Type 0) (round : Program Walked) (visited : Visited)
    → P (record { children = nil; visited = visited; ended_by = none })
    → Returns P round
    → (r : Option GoError)
    → ((e : GoError) → P (record { children = nil; visited = visited; ended_by = some e }))
    → Returns P (walk_next round visited r)
unfolding walk_next Returns
walk_next-Returns P round visited start h none stop = h
walk_next-Returns P round visited start h (some e) stop = stop e

-- the children are one level higher than the walker's values
abbrev pub Shallow : ℕ → Walked → Type 0
Shallow n w = heights w.children ≤ suc n

pub walk_all-Low :
    (n : ℕ) (walk : Walker) (ctx : Context)
    → Low n walk
    → (fs : List Field) (container : ℕ) (visited : Visited)
    → Returns (Shallow n) (walk_all walk ctx fs container visited)
unfolding walk_all Returns heights
walk_all-Low n walk ctx low [] container visited = omega arith
walk_all-Low n walk ctx low (f ∷ fs) container visited = λ r.
    walk_next-Returns (Shallow n) _ visited (omega arith)
      (Returns-bind (AtMost n) (Shallow n) (walk f container visited) _ (low f container visited)
        (λ answer h.
          Returns-bind (Shallow n) (Shallow n) (walk_all walk ctx fs container answer.1) _
            (walk_all-Low n walk ctx low fs container answer.1) (λ rest g. omega arith)))
      r (λ e. omega arith)

-- the values below a node whose children this walker walks
abbrev pub Under : ℕ → Option Walker → Type 0
Under b none = Unit
Under b (some walk) = (n : ℕ) × Low n walk × (suc n ≤ b)

abbrev pub DumpWithin : ℕ → Result TypeValue × Visited → Type 0
DumpWithin b r = Within b r.0

dump_ended-Within :
    (b : ℕ) (n : Node) (w : Walked)
    → heights w.children ≤ b
    → (ended : Option GoError) → Within b (dump_ended n w ended)
unfolding dump_ended node_with height
dump_ended-Within b n w h none = h
dump_ended-Within b n w h (some e) = tt

dump_fields-Within :
    (b m : ℕ) (walk : Walker) (ctx : Context) (n : Node) (visited : Visited)
    → Low m walk
    → suc m ≤ b
    → (fields : Result (List Field))
    → Returns (DumpWithin b) (dump_fields walk ctx n visited fields)
unfolding dump_fields Returns node_with height heights
dump_fields-Within b m walk ctx n visited low h (err e) = omega arith
dump_fields-Within b m walk ctx n visited low h (ok fields) =
    Returns-bind (Shallow m) (DumpWithin b) (walk_all walk ctx fields n.address visited) _
      (walk_all-Low m walk ctx low fields n.address visited)
      (λ w g. dump_ended-Within b n w (omega arith) w.ended_by)

dump_node-Within :
    (b : ℕ) (walk : Option Walker) (ctx : Context) (module_name : Text) (n : Node)
    (visited : Visited)
    → Under b walk
    → Returns (DumpWithin b) (dump_node walk ctx module_name n visited)
unfolding dump_node Returns node_with height heights
dump_node-Within b none ctx module_name n visited under = omega arith
dump_node-Within b (some walk) ctx module_name n visited (m, low, h) =
    Returns-any (DumpWithin b) (Calls.type_fields module_name n.type_name) _
      (dump_fields-Within b m walk ctx n visited low h)

dump_sized-Within :
    (b : ℕ) (walk : Option Walker) (depth : ℕ) (unicode : List ℕ → Text) (ctx : Context)
    (module_name type_name : Text) (address : ℕ) (visited : Visited)
    → Under b walk
    → (size : Result ℕ)
    → Returns
        (DumpWithin b)
        (dump_sized walk depth unicode ctx module_name type_name address visited size)
unfolding dump_sized Returns
dump_sized-Within b walk depth unicode ctx module_name type_name address visited under (err e) = tt
dump_sized-Within b walk depth unicode ctx module_name type_name address visited under (ok size) =
    Returns-any (DumpWithin b)
      (read_node unicode [] type_name address size (ltb 0 size && not (address == 0))) _
      (λ n. dump_node-Within b walk ctx module_name n ((address, depth) ∷ visited) under)

pub dump_type_rec-Within :
    (b : ℕ) (walk : Option Walker) (depth : ℕ) (unicode : List ℕ → Text) (ctx : Context)
    (module_name type_name : Text) (address : ℕ) (visited : Visited)
    → Under b walk
    → Returns
        (DumpWithin b)
        (dump_type_rec walk depth unicode ctx module_name type_name address visited)
unfolding dump_type_rec dump_checked Returns
dump_type_rec-Within b walk depth unicode ctx module_name type_name address visited under =
    λ r. checked_within r
  where
    checked_within :
        (r : Option GoError)
        → Returns
            (DumpWithin b)
            (dump_checked walk depth unicode ctx module_name type_name address visited r)
    checked_within (some e) = tt
    checked_within none =
        Returns-any (DumpWithin b) (Calls.type_size module_name type_name) _
          (dump_sized-Within b walk depth unicode ctx module_name type_name address visited under)

pub hang-AtMost :
    (b : ℕ) (n : Node) (r : Result TypeValue × Visited) → DumpWithin b r → AtMost (suc b) (hang n r)
unfolding hang node_with height heights
hang-AtMost b n (err e, seen) h = omega arith
hang-AtMost b n (ok sub, seen) h =
    let same : height (renamed (codes "*") sub) ≡ height sub = height-renamed (codes "*") sub in
    omega arith
