-- ===== src/Handlers/Settings.antt =====
-- cmd/gokd-mcp/tools.go: symbols, expressions, source lines and dumps. `default_cache` is the path under
-- the user's cache directory, `is_abs` is `filepath.IsAbs`.
use go_kd.Prelude.{ℕ, Bool, none, some, [], ◌∷◌, ◌==◌, if◌then◌else◌}
use go_kd.Prelude.Int.{ℤ, pos, negsuc}
use go_kd.Text.{Text, codes, trim_space, to_lower, is_case, encode_to_string}
use go_kd.Errors.{Result, ok, err, other}
use go_kd.Events.{hex64}
use go_kd.Numbers.{parse_hex_uint64}
use go_kd.ValueKinds.{value_kind_string, parse_value_kind}
use go_kd.Session.{
  Context, Value, SourceLine, Program, ◌>>=◌, finish, check_context, context_with_seconds, done,
}
use go_kd.Session.Calls.{dump_small, dump_default, dump_full}
use go_kd.Session.Calls
use go_kd.Handlers.{OkOutput, then_ok, required}
use go_kd.Handlers.Data.{positive}

unfoldable pub get_symbol_path : Context → Program (Result Text)
get_symbol_path ctx = check_context ctx >>= λ u. Calls.symbol_path

unfoldable pub set_symbol_path : Context → Text → Program (Result OkOutput)
set_symbol_path ctx path = check_context ctx >>= λ u. then_ok (Calls.set_symbol_path path)

unfoldable pub reload_symbols : Context → Text → ℤ → Program (Result OkOutput)
reload_symbols parent_ctx spec timeout = done (context_with_seconds parent_ctx timeout) >>= λ ctx.
    then_ok (Calls.reload_symbols ctx spec)

unfoldable pub sym_fix : Text → Context → Text → Program (Result OkOutput)
sym_fix default_cache ctx cache =
    check_context ctx >>= λ u. then_ok (Calls.sym_fix default_cache cache)

pub record EvaluateOutput : Type 0 where
  pub type_name : Text
  pub u64 : ℕ
  pub f64 : ℕ
  pub raw_hex : Text
  pub remainder : ℕ

-- `formatValue` and the remainder
unfoldable pub format_value : Value → ℕ → EvaluateOutput
format_value v remainder = record {
  type_name = value_kind_string v.kind;
  u64 = v.u64;
  f64 = v.f64;
  raw_hex = encode_to_string v.raw;
  remainder = remainder;
}

-- `ParseValueKind` with its refusal
abbrev pub wanted_kind : Text → Result ℕ
wanted_kind desired = elim (parse_value_kind desired) [
  | none ↦ err (other (codes "invalid desired_type"))
  | some kind ↦ ok kind
]

unfoldable pub evaluate : Context → Text → Text → ℤ → Program (Result EvaluateOutput)
evaluate parent_ctx expr desired timeout = required expr (codes "expr is required") >>= λ u.
    done (wanted_kind desired) >>= λ kind. done (context_with_seconds parent_ctx timeout) >>= λ ctx.
    Calls.evaluate ctx expr kind >>= λ answer. let (v, rem) = answer in finish (format_value v rem)

unfoldable pub get_radix : Context → Program (Result ℕ)
get_radix ctx = check_context ctx >>= λ u. Calls.radix

unfoldable pub set_radix : Context → ℕ → Program (Result OkOutput)
set_radix ctx radix = check_context ctx >>= λ u. then_ok (Calls.set_radix radix)

unfoldable pub get_expression_syntax : Context → Program (Result Text)
get_expression_syntax ctx = check_context ctx >>= λ u.
    Calls.expression_syntax >>= λ syn. finish (if syn == 1 then codes "cpp" else codes "masm")

unfoldable pub parse_syntax : Text → Result ℕ
parse_syntax text =
    let name = to_lower (trim_space text) in
    if is_case name (codes "masm" ∷ [] ∷ [])
    then ok 0
    else if is_case name (codes "cpp" ∷ codes "c++" ∷ [])
    then ok 1
    else err (other (codes "invalid syntax"))

unfoldable pub set_expression_syntax : Context → Text → Program (Result OkOutput)
set_expression_syntax ctx text = check_context ctx >>= λ u.
    done (parse_syntax text) >>= λ syn. then_ok (Calls.set_expression_syntax syn)

unfoldable pub addr_to_line : Context → Text → Program (Result SourceLine)
addr_to_line ctx address_hex = check_context ctx >>= λ u.
    done (parse_hex_uint64 address_hex) >>= λ address. Calls.addr_to_line address

unfoldable pub line_to_addr : Context → Text → ℕ → Program (Result Text)
line_to_addr ctx file line = check_context ctx >>= λ u.
    required file (codes "file is required") >>= λ v.
    positive line (codes "line must be >= 1") >>= λ w.
    Calls.line_to_addr file line >>= λ address. finish (hex64 address)

unfoldable pub parse_dump_kind : Text → Result ℕ
parse_dump_kind text =
    let name = to_lower (trim_space text) in
    if is_case name ([] ∷ codes "default" ∷ [])
    then ok dump_default
    else if is_case name (codes "small" ∷ [])
    then ok dump_small
    else if is_case name (codes "full" ∷ [])
    then ok dump_full
    else err (other (codes "invalid kind"))

-- no timeout stands for 600 seconds
unfoldable pub dump_timeout : ℤ → ℤ
dump_timeout (pos n) = if n == 0 then pos 600 else pos n
dump_timeout (negsuc n) = negsuc n

unfoldable pub write_dump :
    (Text → Bool) → Context → Text → Text → ℕ → Text → ℤ → Program (Result OkOutput)
write_dump is_abs parent_ctx path kind_name flags comment timeout =
    required path (codes "path is required") >>= λ u. done (parse_dump_kind kind_name) >>= λ kind.
    done (context_with_seconds parent_ctx (dump_timeout timeout)) >>= λ ctx.
    then_ok (Calls.write_dump is_abs ctx path kind flags comment)
