-- ===== src/TypeWalk/Shown.antt =====
-- cmd/gokd-mcp: the handler of `dump_type` (tools.go) and the shape of its answer (format.go).
use go_kd.Prelude.{ℕ, Bool, Option, List}
use go_kd.Prelude.Int.{ℤ}
use go_kd.Text.{Text, codes, encode_to_string}
use go_kd.Errors.{GoError, Result}
use go_kd.Events.{hex64}
use go_kd.Numbers.{parse_hex_uint64}
use go_kd.Session.{Context, Program, ◌>>=◌, finish, check_context, context_with_seconds, done}
use go_kd.Handlers.{required}
use go_kd.TypeWalk.{Decoded, TypeValue, TypeValues, value, nil, cons}
use go_kd.TypeWalk.Walk.{dump_type}

-- `typeValueOutput`; an error is kept as a value in place of its text
mutual
  pub data TypeValueOutput : Type 0 where
    shown :
        (name type_name address_hex : Text) (size : ℕ) (raw_hex : Text)
        → Option GoError
        → Decoded
        → TypeValueOutputs
        → TypeValueOutput

  pub data TypeValueOutputs : Type 0 where
    none_shown : TypeValueOutputs
    also : TypeValueOutput → TypeValueOutputs → TypeValueOutputs

unfoldable mutual
  pub format_type_value : TypeValue → TypeValueOutput
  format_type_value (value name type_name address size raw error result children) =
      shown name type_name (hex64 address) size (encode_to_string raw) error result
        (format_type_values children)

  pub format_type_values : TypeValues → TypeValueOutputs
  format_type_values nil = none_shown
  format_type_values (cons v vs) = also (format_type_value v) (format_type_values vs)

unfoldable pub dump_type_tool :
    (List ℕ → Text) → Context → Text → Text → Text → ℤ → Bool → ℤ → Program (Result TypeValueOutput)
dump_type_tool unicode ctx module_name type_name address_hex max_depth follow timeout =
    check_context ctx >>= λ u. required module_name (codes "module is required") >>= λ v.
    required type_name (codes "type is required") >>= λ w.
    done (parse_hex_uint64 address_hex) >>= λ address.
    done (context_with_seconds ctx timeout) >>= λ ctx2.
    dump_type unicode ctx2 module_name type_name address max_depth follow >>= λ tv.
    finish (format_type_value tv)
