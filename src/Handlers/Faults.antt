-- ===== src/Handlers/Faults.antt =====
-- cmd/gokd-mcp/tools.go: `last_exception` and `bug_check`.
use go_kd.Prelude.{ℕ, ◌++◌, Bool, true, false, List, [], map, take}
use go_kd.Text.{Text, codes, hex_fixed}
use go_kd.Errors.{Result}
use go_kd.Events.{hex64}
use go_kd.Session.{Context, LastException, Program, bind, ◌>>=◌, check_context, done}
use go_kd.Session.Calls.{BugCheck}
use go_kd.Session.Calls
use go_kd.Handlers.Data.{not_found_as}

-- `fmt.Sprintf("0x%08x", code)`
abbrev pub hex32 : ℕ → Text
hex32 code = codes "0x" ++ hex_fixed 8 code

pub record LastExceptionOutput : Type 0 where
  pub found : Bool
  pub code : ℕ
  pub code_hex : Text
  pub flags : ℕ
  pub address_hex : Text
  pub nested_record_hex : Text
  pub parameter_count : ℕ
  pub parameters : List Text
  pub first_chance : Bool
  pub process_id : ℕ
  pub thread_id : ℕ
  pub description : Text

abbrev pub no_exception : LastExceptionOutput
no_exception = record {
  found = false;
  code = 0;
  code_hex = [];
  flags = 0;
  address_hex = [];
  nested_record_hex = [];
  parameter_count = 0;
  parameters = [];
  first_chance = false;
  process_id = 0;
  thread_id = 0;
  description = [];
}

-- The loop takes the first `ParameterCount` of the 15 parameters; DbgEng gives at most 15.
unfoldable pub format_exception : LastException → LastExceptionOutput
format_exception ex = record {
  found = true;
  code = ex.code;
  code_hex = hex32 ex.code;
  flags = ex.flags;
  address_hex = hex64 ex.address;
  nested_record_hex = hex64 ex.nested_record;
  parameter_count = ex.parameter_count;
  parameters = map hex64 (take ex.parameter_count ex.parameters);
  first_chance = ex.first_chance;
  process_id = ex.process_id;
  thread_id = ex.thread_id;
  description = ex.description;
}

unfoldable pub last_exception : Context → Program (Result LastExceptionOutput)
last_exception ctx = check_context ctx >>= λ u.
    bind Calls.last_exception (λ r. done (not_found_as no_exception format_exception r))

pub record BugCheckOutput : Type 0 where
  pub found : Bool
  pub code : ℕ
  pub code_hex : Text
  pub args : List Text
  pub name : Text
  pub description : Text

abbrev pub no_bug_check : BugCheckOutput
no_bug_check = record {
  found = false;
  code = 0;
  code_hex = [];
  args = [];
  name = [];
  description = [];
}

unfoldable pub format_bug_check : BugCheck → BugCheckOutput
format_bug_check bc = record {
  found = true;
  code = bc.code;
  code_hex = hex32 bc.code;
  args = map hex64 bc.args;
  name = bc.name;
  description = bc.description;
}

unfoldable pub bug_check : Context → Program (Result BugCheckOutput)
bug_check ctx = check_context ctx >>= λ u.
    bind Calls.bug_check (λ r. done (not_found_as no_bug_check format_bug_check r))
