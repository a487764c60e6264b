-- ===== src/Readonly.antt =====
-- cmd/gokd-mcp/readonly.go: which tools a readonly server offers, and which raw commands it refuses.
pub mod Words
use go_kd.Prelude.{
  ℕ, ◌+◌, Bool, true, false, not, ◌&&◌, ◌||◌, String, List, [], ◌∷◌, leb, ◌==◌, str_eq,
  if◌then◌else◌, length, drop,
}
use go_kd.Text.{Text, codes, trim_left, lower_code, trim_space}

unfoldable pub mutating_tools : List String
mutating_tools =
    "attach_process" ∷ "create_process" ∷ "attach_kernel" ∷ "open_dump" ∷ "detach"
    ∷ "connect_remote" ∷ "disconnect_remote" ∷ "set_thread" ∷ "set_register" ∷ "write_memory"
    ∷ "go_execution" ∷ "step_in" ∷ "step_over" ∷ "step_out" ∷ "break_in" ∷ "add_breakpoint"
    ∷ "add_breakpoint_source_line" ∷ "add_data_breakpoint" ∷ "configure_breakpoint"
    ∷ "breakpoint_command" ∷ "enable_breakpoint" ∷ "remove_breakpoint" ∷ "set_radix"
    ∷ "set_expression_syntax" ∷ "set_symbol_path" ∷ "reload_symbols" ∷ "sym_fix" ∷ "write_dump"
    ∷ "setup_kernel_debug" ∷ []

-- `mutatingTools[name]`
unfoldable pub is_listed : String → List String → Bool
is_listed name [] = false
is_listed name (t ∷ ts) = str_eq t name || is_listed name ts

pub record Annotations : Type 0 where
  pub destructive_hint : Bool
  pub read_only_hint : Bool

unfoldable pub annotations_for : String → Annotations
annotations_for name =
    if is_listed name mutating_tools
    then record { destructive_hint = true; read_only_hint = false }
    else record { destructive_hint = false; read_only_hint = true }

-- A tool as it is registered: its name and its risk annotations.
pub record Tool : Type 0 where
  pub name : String
  pub annotations : Annotations

-- `addToolMaybe` on the tools that the server has so far. No caller sets `Annotations` itself.
unfoldable pub add_tool_maybe : Bool → List Tool → String → List Tool
unfolding annotations_for
add_tool_maybe readonly tools name =
    if readonly && is_listed name mutating_tools
    then tools
    else record { name = name; annotations = annotations_for name } ∷ tools

-- `\s` and the word characters of `\b` in Go's regular expressions
abbrev pub is_re_space : ℕ → Bool
is_re_space c = c == b' ' || c == 9 || c == 10 || c == 12 || c == 13

unfoldable pub is_word : ℕ → Bool
is_word c =
    (leb b'0' c && leb c b'9')
    || (leb b'A' c && leb c b'Z')
    || (leb b'a' c && leb c b'z')
    || c == b'_'

-- `\b` behind an ASCII word character; no word of a pattern ends in s or k.
pub boundary : List ℕ → Bool
boundary [] = true
boundary (c ∷ s) = not (is_word c)

-- Two characters that are not ASCII fold to an ASCII letter under `(?i)`: ſ to s, the Kelvin sign to k.
abbrev pub long_s : ℕ
long_s = 0x17f

abbrev pub kelvin_sign : ℕ
kelvin_sign = 0x212a

-- The character that a byte begins, and what follows: the two above are decoded. Of any other that is
-- not ASCII the bytes stay, none of which a pattern matches.
unfoldable pub decoded : ℕ → List ℕ → List ℕ
decoded c [] = c ∷ []
decoded c (d ∷ []) = if c == 0xc5 && d == 0xbf then long_s ∷ [] else c ∷ d ∷ []
decoded c (d ∷ e ∷ s) =
    if c == 0xc5 && d == 0xbf
    then long_s ∷ e ∷ s
    else if c == 0xe2 && d == 0x84 && e == 0xaa
    then kelvin_sign ∷ s
    else c ∷ d ∷ e ∷ s

unfoldable pub runes : Text → List ℕ
unfolding decoded
runes [] = []
runes (c ∷ s) = decoded c (runes s)

unfoldable pub fold : ℕ → ℕ
fold c = if c == long_s then b's' else if c == kelvin_sign then b'k' else lower_code c

-- `(?i)` before a word
unfoldable pub has_folded_prefix : List ℕ → Text → Bool
unfolding fold
has_folded_prefix s [] = true
has_folded_prefix [] (d ∷ w) = false
has_folded_prefix (c ∷ s) (d ∷ w) = fold c == d && has_folded_prefix s w

-- A pattern `(?i)^\s*…\b` by the words that its middle part stands for.
abbrev pub Pattern : Type 0
Pattern = List Text

unfoldable pub raw_command_deny : List Pattern
raw_command_deny =
    (codes "q" ∷ [])
    ∷ (codes "qq" ∷ [])
    ∷ (codes "qd" ∷ [])
    ∷ (codes ".kill" ∷ [])
    ∷ (codes ".restart" ∷ [])
    ∷ (codes ".create" ∷ [])
    ∷ (codes ".attach" ∷ [])
    ∷ (codes ".detach" ∷ [])
    ∷ (codes ".shell" ∷ [])
    ∷ (codes ".dump" ∷ [])
    ∷ (codes ".writemem" ∷ [])
    ∷ (codes ".load" ∷ codes ".loadby" ∷ [])
    ∷ (codes ".unload" ∷ [])
    ∷ (codes ".logopen" ∷ [])
    ∷ (codes "e" ∷ codes "eb" ∷ codes "ed" ∷ codes "ew" ∷ codes "eq" ∷ codes "ep" ∷ codes "ea" ∷ [])
    ∷ (codes "f" ∷ [])
    ∷ (codes "g" ∷ codes "gh" ∷ codes "gu" ∷ [])
    ∷ (codes "p" ∷ codes "pa" ∷ [])
    ∷ (codes "t" ∷ codes "ta" ∷ codes "tb" ∷ [])
    ∷ (codes "wt" ∷ [])
    ∷ (codes "bp"
        ∷ codes "bm"
        ∷ codes "bu"
        ∷ codes "ba"
        ∷ codes "bc"
        ∷ codes "bd"
        ∷ codes "be"
        ∷ [])
    ∷ []

unfoldable pub matches_word : List ℕ → Text → Bool
unfolding boundary has_folded_prefix
matches_word s w = has_folded_prefix s w && boundary (drop (length w) s)

unfoldable pub matches_any : List ℕ → Pattern → Bool
unfolding matches_word
matches_any s [] = false
matches_any s (w ∷ ws) = matches_word s w || matches_any s ws

-- `re.MatchString(cmd)`
unfoldable pub match_string : Pattern → Text → Bool
unfolding matches_any runes
match_string p cmd = matches_any (trim_left is_re_space (runes cmd)) p

unfoldable pub deny_loop : List Pattern → Text → Bool
unfolding match_string
deny_loop [] cmd = false
deny_loop (p ∷ ps) cmd = if match_string p cmd then true else deny_loop ps cmd

unfoldable pub deny_raw_command : Text → Bool
unfolding deny_loop raw_command_deny
deny_raw_command cmd = deny_loop raw_command_deny cmd

-- the text up to the first blank or tab
unfoldable pub until_blank : Text → Text
until_blank [] = []
until_blank (c ∷ s) = if c == b' ' || c == 9 then [] else c ∷ until_blank s

unfoldable pub first_token : Text → Text
unfolding until_blank trim_space
first_token cmd = until_blank (trim_space cmd)
