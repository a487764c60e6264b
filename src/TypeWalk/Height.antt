-- ===== src/TypeWalk/Height.antt =====
-- The depth that `dump_type` was asked for bounds the tree that it answers with.
use mathlib.Core.Path.{subst}
use go_kd.Prelude.{
  ℕ, zero, suc, ◌+◌, ◌≤◌, ◌≡◌, Bool, true, false, ◌&&◌, Option, some, List, [], ◌∷◌, ◌==◌, arith,
  leb, length,
}
use go_kd.Prelude.Int.{ℤ}
use go_kd.Text.{Text, is_empty, trim_space, trim_last}
use go_kd.Errors.{GoError, Result, ok, err}
use go_kd.Inspect.{Field}
use go_kd.Session.{done, Context, Command, AnswerOf, Program, run}
use go_kd.Session.Returns.{
  Returns-done, Returns, Returns-bind, Returns-any, run-Returns, Returns-if,
}
use go_kd.Session.Calls
use go_kd.TypeWalk.{
  little_endian, slice, Walked, is_pointer_type, Visited, is_cycle, Walker, walk_all, TypeValue,
  nil,
}
use go_kd.TypeWalk.Walk.{
  hang, Node, node_with, read_node, err_cycle, dump_type_rec, follow_to, follow_pointer, nest,
  below_field, unreadable_field, walk_field, depth_of, walker_at, dump_type,
}
use go_kd.TypeWalk.Depth.{
  height, heights, AtMost, Within, Low, Shallow, walk_all-Low, Under, DumpWithin,
  dump_type_rec-Within, hang-AtMost,
}

-- A followed pointer takes two levels: its own, and that of the value behind it.
abbrev pub levels : Bool → ℕ → ℕ
levels false depth = depth
levels true depth = depth + depth

two_more : (d : ℕ) → suc (suc (d + d)) ≡ suc d + suc d
two_more d = omega arith

suc-levels : (follow : Bool) (d : ℕ) → suc (levels follow d) ≤ levels follow (suc d)
suc-levels false d = omega arith
suc-levels true d = omega arith

leaf-AtMost :
    (b : ℕ) (n : Node) (error : Option GoError) (visited : Visited)
    → Returns (AtMost b) (done (node_with n error nil, visited))
unfolding Returns node_with height heights
leaf-AtMost b n error visited = omega arith

follow_to-AtMost :
    (m : ℕ) (walk : Walker) (depth : ℕ) (unicode : List ℕ → Text) (ctx : Context)
    (module_name : Text) (n : Node) (ptr : ℕ) (visited : Visited)
    → Low m walk
    → Returns (AtMost (suc (suc m))) (follow_to walk depth unicode ctx module_name n ptr visited)
unfolding follow_to
follow_to-AtMost m walk depth unicode ctx module_name n ptr visited low =
    let b = suc (suc m) in
    let base_type = trim_space (trim_last b'*' n.type_name) in
    Returns-if (AtMost b) (ptr == 0) _ _ (leaf-AtMost b n n.error visited) (
      Returns-if (AtMost b) (is_cycle ptr depth visited) _ _
        (leaf-AtMost b n (some err_cycle) visited)
        (Returns-if (AtMost b) (is_empty base_type) _ _ (leaf-AtMost b n n.error visited) (
          Returns-bind (DumpWithin (suc m)) (AtMost b)
            (dump_type_rec (some walk) depth unicode ctx module_name base_type ptr visited) _
            (dump_type_rec-Within (suc m) (some walk) depth unicode ctx module_name base_type ptr
              visited (m, low, omega arith))
            (λ r h. Returns-done (AtMost b) (hang n r) (hang-AtMost (suc m) n r h)))))

follow_pointer-AtMost :
    (follow : Bool) (d : ℕ) (walk : Walker) (depth : ℕ) (unicode : List ℕ → Text) (ctx : Context)
    (module_name : Text) (n : Node) (visited : Visited)
    → Low (levels follow d) walk
    → Returns
        (AtMost (levels follow (suc d)))
        (follow_pointer walk depth follow unicode ctx module_name n visited)
unfolding follow_pointer
follow_pointer-AtMost false d walk depth unicode ctx module_name n visited low =
    leaf-AtMost (suc d) n n.error visited
follow_pointer-AtMost true d walk depth unicode ctx module_name n visited low =
    Returns-if (AtMost (suc d + suc d)) (is_pointer_type n.type_name && leb 8 (length n.raw)) _ _
      (subst
        (λ b. Returns (AtMost b) (
          follow_to walk depth unicode ctx module_name n (little_endian (slice 0 8 n.raw)) visited))
        (two_more d) (follow_to-AtMost (d + d) walk depth unicode ctx module_name n _ visited low))
      (leaf-AtMost (suc d + suc d) n n.error visited)

nested :
    (b m : ℕ) (n : Node) (w : Walked) (visited : Visited)
    → suc m ≤ b
    → heights w.children ≤ suc m
    → Returns (AtMost b) (done (node_with n n.error w.children, w.visited))
unfolding Returns node_with height
nested b m n w visited h shallow = omega arith

nest-AtMost :
    (b m : ℕ) (walk : Walker) (ctx : Context) (n : Node) (visited : Visited)
    (pointer : Program (TypeValue × Visited))
    → Low m walk
    → suc m ≤ b
    → Returns (AtMost b) pointer
    → (fields : Result (List Field)) → Returns (AtMost b) (nest walk ctx n visited pointer fields)
unfolding nest node_with height
nest-AtMost b m walk ctx n visited pointer low h g (err e) = g
nest-AtMost b m walk ctx n visited pointer low h g (ok []) = g
nest-AtMost b m walk ctx n visited pointer low h g (ok (f ∷ fs)) =
    Returns-bind (Shallow m) (AtMost b) (walk_all walk ctx (f ∷ fs) n.address visited) _
      (walk_all-Low m walk ctx low (f ∷ fs) n.address visited)
      (λ w shallow. nested b m n w visited h shallow)

below_field-AtMost :
    (follow : Bool) (d : ℕ) (walk : Walker) (depth : ℕ) (unicode : List ℕ → Text) (ctx : Context)
    (module_name : Text) (visited : Visited)
    → Low (levels follow d) walk
    → (n : Node)
    → Returns
        (AtMost (levels follow (suc d)))
        (below_field walk depth follow unicode ctx module_name visited n)
unfolding below_field
below_field-AtMost follow d walk depth unicode ctx module_name visited low n =
    let b = levels follow (suc d) in
    let pointer = follow_pointer-AtMost follow d walk depth unicode ctx module_name n visited low in
    Returns-if (AtMost b) (is_pointer_type n.type_name) _ _ pointer (
      Returns-any (AtMost b) (Calls.type_fields module_name n.type_name) _
        (nest-AtMost b (levels follow d) walk ctx n visited _ low (suc-levels follow d) pointer))

unreadable-AtMost :
    (b : ℕ) (f : Field) (address : ℕ) (visited : Visited)
    → Returns (AtMost b) (done (unreadable_field f address, visited))
unfolding Returns height heights
unreadable-AtMost b f address visited = omega arith

walk_field-Low :
    (d : ℕ) (follow : Bool) (unicode : List ℕ → Text) (ctx : Context) (module_name : Text)
    → Low (levels follow d) (walk_field d follow unicode ctx module_name)
unfolding walk_field
walk_field-Low zero follow unicode ctx module_name f container visited =
    let b = levels follow 0 in
    Returns-if (AtMost b) (f.size == 0) _ _ (unreadable-AtMost b f _ visited) (
      Returns-any (AtMost b) (read_node unicode f.name f.type_name _ f.size true) _
        (λ n. leaf-AtMost b n n.error visited))
walk_field-Low (suc d) follow unicode ctx module_name f container visited =
    let b = levels follow (suc d) in
    let walk = walk_field d follow unicode ctx module_name in
    Returns-if (AtMost b) (f.size == 0) _ _ (unreadable-AtMost b f _ visited) (
      Returns-any (AtMost b) (read_node unicode f.name f.type_name _ f.size true) _ (
        below_field-AtMost follow d walk (suc d) unicode ctx module_name visited
          (walk_field-Low d follow unicode ctx module_name)))

walker_at-Under :
    (depth : ℕ) (follow : Bool) (unicode : List ℕ → Text) (ctx : Context) (module_name : Text)
    → Under (levels follow depth) (walker_at depth follow unicode ctx module_name)
unfolding walker_at
walker_at-Under zero follow unicode ctx module_name = tt
walker_at-Under (suc d) follow unicode ctx module_name =
    (levels follow d, walk_field-Low d follow unicode ctx module_name, suc-levels follow d)

-- Whatever the bindings answer, `dump_type` ends with an error or a tree of at most `max_depth` levels below
-- its root (3 for 0, none for a negative number), or twice that if it follows pointers: also where
-- pointers lead in a circle, or a type has a field of its own type.
pub dump_type-IsBounded :
    {M : Type 0} (unicode : List ℕ → Text) (ctx : Context) (module_name type_name : Text)
    (address : ℕ) (max_depth : ℤ) (follow : Bool) (engine : (c : Command) → M → AnswerOf c × M)
    (m : M)
    → Within
        (levels follow (depth_of max_depth))
        (run engine (dump_type unicode ctx module_name type_name address max_depth follow) m).0
unfolding dump_type
dump_type-IsBounded unicode ctx module_name type_name address max_depth follow engine m =
    let depth = depth_of max_depth in
    let b = levels follow depth in
    run-Returns (Within b) engine _ m (
      Returns-bind (DumpWithin b) (Within b)
        (dump_type_rec (walker_at depth follow unicode ctx module_name) depth unicode ctx
          module_name type_name address [])
        _
        (dump_type_rec-Within b (walker_at depth follow unicode ctx module_name) depth unicode ctx
          module_name type_name address [] (walker_at-Under depth follow unicode ctx module_name))
        (λ r h. Returns-done (Within b) r.0 h))
