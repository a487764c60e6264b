-- ===== src/Workflows/Summary.antt =====
-- cmd/gokd-mcp/workflows.go: `summarise_target`, and the calls of the session that `get_session_state` of
-- cmd/gokd-mcp/session_state.go makes.
use go_kd.Prelude.{ℕ, ◌++◌, Option, none, some, List, [], ◌∷◌, map, length, if◌then◌else◌}
use go_kd.Text.{Text, codes, is_empty, format_d, format_x}
use go_kd.Errors.{other, Result, ok, err}
use go_kd.Events.{Srv, Thread, Module, hex64}
use go_kd.Listing.{ModuleInfo, format_module}
use go_kd.SessionState.{View, GetSessionStateOutput, probe_status, get_session_state}
use go_kd.Session.{Context, LastException, Program, bind, ◌>>=◌, finish, check_context, done}
use go_kd.Session.Calls.{BugCheck}
use go_kd.Session.Calls
use go_kd.Session.Points
use go_kd.Handlers.{ThreadInfo, format_thread}
use go_kd.Handlers.Faults.{hex32}
use go_kd.Workflows.{capped_at}
use go_kd.Workflows.Faults.{kept, mapped, join}

-- the number of entries of an answer
abbrev pub count_of : {A : Type 0} → Result (List A) → Result ℕ
count_of (ok xs) = ok (length xs)
count_of (err e) = err e

-- What is known of a target that is not attached: its other calls are not made.
abbrev pub unasked : Result ℕ → View
unasked threads = record {
  threads = threads;
  modules = err (other []);
  breakpoints = err (other []);
  radix = err (other []);
  syntax = err (other []);
  symbol_path = err (other []);
}

unfoldable pub view_attached : Result ℕ → Program View
view_attached threads = bind Calls.modules (λ mods. bind Points.breakpoints (λ bps.
    bind Calls.radix (λ r. bind Calls.expression_syntax (λ syn. bind Calls.symbol_path (λ path.
      done (record {
        threads = threads;
        modules = count_of mods;
        breakpoints = count_of bps;
        radix = r;
        syntax = syn;
        symbol_path = path;
      }))))))

unfoldable pub view_from : Result ℕ → Program View
view_from threads =
    if (probe_status threads).attached then view_attached threads else done (unasked threads)

-- the handler, with the calls that it makes
unfoldable pub session_state : Context → Srv → Program (Result GetSessionStateOutput)
session_state ctx s = check_context ctx >>= λ u.
    bind Calls.threads
      (λ ts. bind (view_from (count_of ts)) (λ view. done (get_session_state none s view)))

pub record ExceptionPreview : Type 0 where
  pub code : ℕ
  pub code_hex : Text
  pub address_hex : Text

pub record BugCheckPreview : Type 0 where
  pub code : ℕ
  pub code_hex : Text
  pub name : Text
  pub description : Text

unfoldable pub preview_exception : LastException → ExceptionPreview
preview_exception ex = record {
  code = ex.code;
  code_hex = hex32 ex.code;
  address_hex = hex64 ex.address;
}

unfoldable pub preview_bug_check : BugCheck → BugCheckPreview
preview_bug_check bc = record {
  code = bc.code;
  code_hex = hex32 bc.code;
  name = bc.name;
  description = bc.description;
}

-- `state` is `none` where `getSessionState` failed and its zero value is shown.
pub record SummariseTargetOutput : Type 0 where
  pub state : Option GetSessionStateOutput
  pub top_modules : List ModuleInfo
  pub threads : List ThreadInfo
  pub exception_preview : Option ExceptionPreview
  pub bug_check_preview : Option BugCheckPreview
  pub summary : Text

abbrev pub or_none : {A : Type 0} → Result (List A) → List A
or_none (ok xs) = xs
or_none (err e) = []

abbrev pub part_if : Text → Text → List Text
part_if shown text = if is_empty shown then [] else text ∷ []

unfoldable pub state_parts : Option GetSessionStateOutput → List Text
state_parts none =
    codes "status=" ∷ (format_d 0 ++ codes " modules, " ++ format_d 0 ++ codes " threads") ∷ []
state_parts (some s) =
    part_if s.target_kind (s.target_kind ++ codes " target")
    ++ part_if s.target_name s.target_name
    ++ ((codes "status=" ++ codes s.status)
        ∷ (format_d s.modules ++ codes " modules, " ++ format_d s.threads ++ codes " threads")
        ∷ [])

abbrev pub bug_check_parts : Option BugCheckPreview → List Text
bug_check_parts none = []
bug_check_parts (some b) = (codes "bug check 0x" ++ format_x b.code) ∷ []

abbrev pub exception_parts : Option ExceptionPreview → List Text
exception_parts none = []
exception_parts (some x) =
    (codes "last exception " ++ hex32 x.code ++ codes " at " ++ x.address_hex) ∷ []

unfoldable pub summarise_from :
    Option GetSessionStateOutput
    → Result (List Module)
    → Result (List Thread)
    → Result LastException
    → Result BugCheck
    → SummariseTargetOutput
summarise_from state mods ths ex bc =
    let exception = mapped preview_exception (kept ex) in
    let bug_check = mapped preview_bug_check (kept bc) in
    record {
      state = state;
      top_modules = map format_module (capped_at 20 (or_none mods));
      threads = map format_thread (capped_at 32 (or_none ths));
      exception_preview = exception;
      bug_check_preview = bug_check;
      summary =
          join (codes ", ")
            (state_parts state ++ bug_check_parts bug_check ++ exception_parts exception)
          ++ codes ".";
    }

unfoldable pub summarise_target : Context → Srv → Program (Result SummariseTargetOutput)
summarise_target ctx s = check_context ctx >>= λ u. bind (session_state ctx s) (λ state.
    bind Calls.modules (λ mods. bind Calls.threads (λ ths.
      bind Calls.last_exception
        (λ ex. bind Calls.bug_check (λ bc. finish (summarise_from (kept state) mods ths ex bc))))))
