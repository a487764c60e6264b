-- ===== src/TypeWalk/Walk.antt =====
-- dumptype.go: `walkField`, `dumpTypeRec` and `DumpType`.
use go_kd.Prelude.{
  ℕ, zero, suc, ◌+◌, ◌%◌, ◌^◌, Bool, true, not, ◌&&◌, Option, none, some, List, [], ◌∷◌, ltb, leb,
  ◌==◌, length, if◌then◌else◌,
}
use go_kd.Prelude.Int.{ℤ, pos, negsuc}
use go_kd.Text.{Text, codes, is_empty, trim_space, trim_last}
use go_kd.Errors.{GoError, other, Result, ok, err}
use go_kd.Inspect.{Field}
use go_kd.Session.{Context, Program, bind, finish, context_err, done, call}
use go_kd.Session.Calls
use go_kd.TypeWalk.{
  Decoded, little_endian, slice, is_pointer_type, decode_known_type, Visited, is_cycle, Walker,
  Walked, walk_all, TypeValue, TypeValues, no_decoding, value, nil, cons,
}

-- a value that has been read and decoded, without children
pub record Node : Type 0 where
  pub name : Text
  pub type_name : Text
  pub address : ℕ
  pub size : ℕ
  pub raw : List ℕ
  pub error : Option GoError
  pub decoded : Decoded

unfoldable pub node_with : Node → Option GoError → TypeValues → TypeValue
node_with n error children =
    value n.name n.type_name n.address n.size n.raw error n.decoded children

unfoldable pub node_of : Text → Text → ℕ → ℕ → Result (List ℕ) → Decoded → Node
node_of name type_name address size (ok raw) decoded = record {
  name = name;
  type_name = type_name;
  address = address;
  size = size % 2 ^ 32;
  raw = raw;
  error = none;
  decoded = decoded;
}
node_of name type_name address size (err e) decoded = record {
  name = name;
  type_name = type_name;
  address = address;
  size = size % 2 ^ 32;
  raw = [];
  error = some e;
  decoded = decoded;
}

abbrev pub bytes_of : Result (List ℕ) → List ℕ
bytes_of (ok raw) = raw
bytes_of (err e) = []

-- The bytes of a value and what they decode to.
unfoldable pub read_node : (List ℕ → Text) → Text → Text → ℕ → ℕ → Bool → Program Node
read_node unicode name type_name address size readable =
    bind (if readable then Calls.read_virtual address size else finish []) (λ raw.
      bind (decode_known_type unicode type_name (bytes_of raw))
        (λ decoded. done (node_of name type_name address size raw decoded)))

abbrev pub no_bytes : GoError
no_bytes = other (codes "bitfield or zero-size field; raw bytes not available")

abbrev pub err_cycle : GoError
err_cycle = other (codes "cycle detected")

-- the answer behind the loop
unfoldable pub dump_ended : Node → Walked → Option GoError → Result TypeValue
dump_ended n w (some e) = err e
dump_ended n w none = ok (node_with n n.error w.children)

-- `dumpTypeRec` behind `TypeFields`, with the walker for one level less
unfoldable pub dump_fields :
    Walker → Context → Node → Visited → Result (List Field) → Program (Result TypeValue × Visited)
dump_fields walk ctx n visited (err e) = done (ok (node_with n n.error nil), visited)
dump_fields walk ctx n visited (ok fields) =
    bind (walk_all walk ctx fields n.address visited)
      (λ w. done (dump_ended n w w.ended_by, w.visited))

-- The node of `dumpTypeRec` and its children: none at depth 0, for which the walker is `none`.
unfoldable pub dump_node :
    Option Walker → Context → Text → Node → Visited → Program (Result TypeValue × Visited)
dump_node none ctx module_name n visited = done (ok (node_with n n.error nil), visited)
dump_node (some walk) ctx module_name n visited =
    bind (Calls.type_fields module_name n.type_name) (dump_fields walk ctx n visited)

unfoldable pub dump_sized :
    Option Walker
    → ℕ
    → (List ℕ → Text)
    → Context
    → Text
    → Text
    → ℕ
    → Visited
    → Result ℕ
    → Program (Result TypeValue × Visited)
dump_sized walk depth unicode ctx module_name type_name address visited (err e) =
    done (err e, visited)
dump_sized walk depth unicode ctx module_name type_name address visited (ok size) =
    bind (read_node unicode [] type_name address size (ltb 0 size && not (address == 0)))
      (λ n. dump_node walk ctx module_name n ((address, depth) ∷ visited))

unfoldable pub dump_checked :
    Option Walker
    → ℕ
    → (List ℕ → Text)
    → Context
    → Text
    → Text
    → ℕ
    → Visited
    → Option GoError
    → Program (Result TypeValue × Visited)
dump_checked walk depth unicode ctx module_name type_name address visited (some e) =
    done (err e, visited)
dump_checked walk depth unicode ctx module_name type_name address visited none =
    bind (Calls.type_size module_name type_name)
      (dump_sized walk depth unicode ctx module_name type_name address visited)

unfoldable pub dump_type_rec :
    Option Walker
    → ℕ
    → (List ℕ → Text)
    → Context
    → Text
    → Text
    → ℕ
    → Visited
    → Program (Result TypeValue × Visited)
dump_type_rec walk depth unicode ctx module_name type_name address visited =
    call (context_err ctx)
      (dump_checked walk depth unicode ctx module_name type_name address visited)

abbrev pub renamed : Text → TypeValue → TypeValue
renamed text (value name type_name address size raw error decoded children) =
    value text type_name address size raw error decoded children

-- what a followed pointer hangs under its field
unfoldable pub hang : Node → Result TypeValue × Visited → TypeValue × Visited
hang n (err e, seen) = (node_with n (some e) nil, seen)
hang n (ok sub, seen) = (node_with n n.error (cons (renamed (codes "*") sub) nil), seen)

unfoldable pub follow_to :
    Walker
    → ℕ
    → (List ℕ → Text)
    → Context
    → Text
    → Node
    → ℕ
    → Visited
    → Program (TypeValue × Visited)
follow_to walk depth unicode ctx module_name n ptr visited =
    let base_type = trim_space (trim_last b'*' n.type_name) in
    if ptr == 0
    then done (node_with n n.error nil, visited)
    else if is_cycle ptr depth visited
    then done (node_with n (some err_cycle) nil, visited)
    else if is_empty base_type
    then done (node_with n n.error nil, visited)
    else bind (dump_type_rec (some walk) depth unicode ctx module_name base_type ptr visited)
        (λ r. done (hang n r))

-- the part on pointers
unfoldable pub follow_pointer :
    Walker
    → ℕ
    → Bool
    → (List ℕ → Text)
    → Context
    → Text
    → Node
    → Visited
    → Program (TypeValue × Visited)
follow_pointer walk depth follow unicode ctx module_name n visited =
    if follow && is_pointer_type n.type_name && leb 8 (length n.raw)
    then follow_to walk depth unicode ctx module_name n (little_endian (slice 0 8 n.raw)) visited
    else done (node_with n n.error nil, visited)

-- the part on nested structs: no fields, or none to be had, go on with the pointer
unfoldable pub nest :
    Walker
    → Context
    → Node
    → Visited
    → Program (TypeValue × Visited)
    → Result (List Field)
    → Program (TypeValue × Visited)
nest walk ctx n visited pointer (err e) = pointer
nest walk ctx n visited pointer (ok []) = pointer
nest walk ctx n visited pointer (ok (f ∷ fs)) =
    bind (walk_all walk ctx (f ∷ fs) n.address visited)
      (λ w. done (node_with n n.error w.children, w.visited))

-- The children of a field that has been read, with some depth left.
unfoldable pub below_field :
    Walker
    → ℕ
    → Bool
    → (List ℕ → Text)
    → Context
    → Text
    → Visited
    → Node
    → Program (TypeValue × Visited)
below_field walk depth follow unicode ctx module_name visited n =
    let pointer = follow_pointer walk depth follow unicode ctx module_name n visited in
    if is_pointer_type n.type_name
    then pointer
    else bind (Calls.type_fields module_name n.type_name) (nest walk ctx n visited pointer)

abbrev pub unreadable_field : Field → ℕ → TypeValue
unreadable_field f address = value f.name f.type_name address 0 [] (some no_bytes) no_decoding nil

-- `walkField`: a field without a size has no bytes.
unfoldable pub walk_field : ℕ → Bool → (List ℕ → Text) → Context → Text → Walker
walk_field zero follow unicode ctx module_name f container visited =
    let address = (container + f.offset) % 2 ^ 64 in
    if f.size == 0
    then done (unreadable_field f address, visited)
    else bind (read_node unicode f.name f.type_name address f.size true)
        (λ n. done (node_with n n.error nil, visited))
walk_field (suc depth) follow unicode ctx module_name f container visited =
    let address = (container + f.offset) % 2 ^ 64 in
    let walk = walk_field depth follow unicode ctx module_name in
    if f.size == 0
    then done (unreadable_field f address, visited)
    else bind (read_node unicode f.name f.type_name address f.size true)
        (below_field walk (suc depth) follow unicode ctx module_name visited)

-- `opts.MaxDepth` with its default
unfoldable pub depth_of : ℤ → ℕ
depth_of (pos n) = if n == 0 then 3 else n
depth_of (negsuc n) = 0

-- the walker for the children of a node at some depth
unfoldable pub walker_at : ℕ → Bool → (List ℕ → Text) → Context → Text → Option Walker
walker_at zero follow unicode ctx module_name = none
walker_at (suc depth) follow unicode ctx module_name =
    some (walk_field depth follow unicode ctx module_name)

unfoldable pub dump_type :
    (List ℕ → Text) → Context → Text → Text → ℕ → ℤ → Bool → Program (Result TypeValue)
dump_type unicode ctx module_name type_name address max_depth follow =
    let depth = depth_of max_depth in
    bind
      (dump_type_rec (walker_at depth follow unicode ctx module_name) depth unicode ctx module_name
        type_name address [])
      (λ r. done r.0)
