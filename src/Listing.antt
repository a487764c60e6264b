-- ===== src/Listing.antt =====
-- cmd/gokd-mcp/tools.go: `get_modules` and `get_stack`, which cut long answers; cmd/gokd-mcp/format.go and
-- gokd.go: how a module and a stack frame are shown. `filepath.Match` is the argument `matches`, with
-- `none` for a bad pattern.
pub mod Complete
use go_kd.Prelude.{
  ℕ, ◌+◌, ◌-◌, Bool, true, false, Option, none, some, List, [], ◌∷◌, ◌++◌, map, ltb, ◌==◌, length,
  take, drop, if◌then◌else◌,
}
use go_kd.Prelude.Int.{ℤ, pos, negsuc, nonpositive, negative, to_ℕ}
use go_kd.Text.{Text, codes, is_empty, trim_space, format_d}
use go_kd.Errors.{GoError, other, Result, ok, err}
use go_kd.Events.{Module, hex64}

abbrev pub default_modules_limit : ℕ
default_modules_limit = 100

abbrev pub max_modules_limit : ℕ
max_modules_limit = 500

abbrev pub default_stack_frames : ℕ
default_stack_frames = 32

abbrev pub max_stack_frames : ℕ
max_stack_frames = 256

unfoldable pub symbol_type_string : ℕ → Text
symbol_type_string t =
    if t == 0
    then codes "none"
    else if t == 1
    then codes "coff"
    else if t == 2
    then codes "codeview"
    else if t == 3
    then codes "pdb"
    else if t == 4
    then codes "export"
    else if t == 5
    then codes "deferred"
    else if t == 6
    then codes "sym"
    else if t == 7
    then codes "dia"
    else codes "unknown(" ++ format_d t ++ codes ")"

pub record ModuleInfo : Type 0 where
  pub name : Text
  pub image_name : Text
  pub base_hex : Text
  pub size : ℕ
  pub timestamp : ℕ
  pub checksum : ℕ
  pub symbol_type : Text

unfoldable pub format_module : Module → ModuleInfo
format_module m = record {
  name = m.module_name;
  image_name = m.image_name;
  base_hex = hex64 m.base;
  size = m.module_size;
  timestamp = m.timestamp;
  checksum = m.checksum;
  symbol_type = symbol_type_string m.symbol_type;
}

-- the loop that fills `filtered`
unfoldable pub filter_modules : (Text → Text → Option Bool) → Text → List Module → List ModuleInfo
filter_modules matches glob [] = []
filter_modules matches glob (m ∷ ms) =
    let formatted = format_module m in
    let rest = filter_modules matches glob ms in
    if is_empty glob then formatted ∷ rest else elim (matches glob formatted.name) [
      | none ↦ rest
      | some match ↦ if match then formatted ∷ rest else rest
    ]

pub record ModulesOutput : Type 0 where
  pub modules : List ModuleInfo
  pub total : ℕ
  pub returned : ℕ
  pub next_offset : ℕ
  pub truncated : Bool

-- a limit by its default and its maximum
unfoldable pub limit_within : ℕ → ℕ → ℤ → ℕ
limit_within default_limit max_limit given =
    let limit = if nonpositive given then default_limit else to_ℕ given in
    if ltb max_limit limit then max_limit else limit

-- the page of `filtered` from an offset
unfoldable pub page_modules : List ModuleInfo → ℕ → ℤ → ModulesOutput
page_modules filtered limit in_offset =
    let total = length filtered in
    let given = if negative in_offset then 0 else to_ℕ in_offset in
    let offset = if ltb total given then total else given in
    let end = if ltb total (offset + limit) then total else offset + limit in
    let page = take (end - offset) (drop offset filtered) in
    if ltb end total
    then record {
      modules = page;
      total = total;
      returned = length page;
      next_offset = end;
      truncated = true;
    }
    else record {
      modules = page;
      total = total;
      returned = length page;
      next_offset = 0;
      truncated = false;
    }

unfoldable pub get_modules :
    Option GoError
    → Result (List Module)
    → (Text → Text → Option Bool)
    → Text
    → ℤ
    → ℤ
    → Result ModulesOutput
get_modules (some e) answer matches name_glob offset limit = err e
get_modules none (err e) matches name_glob offset limit = err e
get_modules none (ok mods) matches name_glob offset limit =
    let glob = trim_space name_glob in
    let page =
      page_modules (filter_modules matches glob mods)
        (limit_within default_modules_limit max_modules_limit limit) offset in
    if is_empty glob then ok page else elim (matches glob []) [
      | none ↦ err (other (codes "invalid name_glob"))
      | some b ↦ ok page
    ]

pub record Frame : Type 0 where
  pub instruction_offset : ℕ
  pub return_offset : ℕ
  pub frame_offset : ℕ
  pub stack_offset : ℕ
  pub module_name : Text
  pub function : Text
  pub displacement : ℕ
  pub source_file : Text
  pub source_line : ℕ

pub record FrameInfo : Type 0 where
  pub instruction_offset_hex : Text
  pub return_offset_hex : Text
  pub frame_offset_hex : Text
  pub stack_offset_hex : Text
  pub module_name : Text
  pub function : Text
  pub displacement : ℕ
  pub source_file : Text
  pub source_line : ℕ

unfoldable pub format_frame : Frame → FrameInfo
format_frame f = record {
  instruction_offset_hex = hex64 f.instruction_offset;
  return_offset_hex = hex64 f.return_offset;
  frame_offset_hex = hex64 f.frame_offset;
  stack_offset_hex = hex64 f.stack_offset;
  module_name = f.module_name;
  function = f.function;
  displacement = f.displacement;
  source_file = f.source_file;
  source_line = f.source_line;
}

pub record StackOutput : Type 0 where
  pub frames : List FrameInfo
  pub returned : ℕ
  pub truncated : Bool

unfoldable pub get_stack : Option GoError → Result (List Frame) → ℤ → Result StackOutput
get_stack (some e) answer max_frames = err e
get_stack none (err e) max_frames = err e
get_stack none (ok frames) max_frames =
    let limit = limit_within default_stack_frames max_stack_frames max_frames in
    let kept = if ltb limit (length frames) then take limit frames else frames in
    let out = map format_frame kept in
    ok (record { frames = out; returned = length out; truncated = ltb limit (length frames) })
