-- ===== src/Tests/Handlers.antt =====
-- Memory that is read and written back, a module list in pages, a stack, and a data breakpoint.
use go_kd.Prelude.{ℕ, ◌≡◌, refl, Bool, true, false, Option, none, some, List, [], ◌∷◌, arith}
use go_kd.Prelude.Int.{pos}
use go_kd.Text.{Text, codes}
use go_kd.Text.Hex.{IsBytes}
use go_kd.Errors.{Result, ok}
use go_kd.Events.{Module}
use go_kd.Memory.{HexOutput, read_memory, write_memory}
use go_kd.Memory.Hexadecimal.{write_memory-read_memory}
use go_kd.Listing.{format_module, Frame}
use go_kd.Listing.Complete.{read_modules, read_modules_complete}
use go_kd.Breakpoints.{Breakpoint, format_breakpoint, parse_breakpoint_access}
use go_kd.Breakpoints.Access.{parse_breakpoint_access-format_breakpoint}

abbrev two_bytes : List ℕ
two_bytes = 0x90 ∷ 0xc3 ∷ []

abbrev two_bytes-IsBytes : IsBytes two_bytes
two_bytes-IsBytes = (omega arith, (omega arith, tt))

abbrev reads : ℕ → ℕ → Result (List ℕ)
reads address size = ok two_bytes

-- memory as the bytes that were written last
abbrev writes : ℕ → List ℕ → List ℕ → Result (List ℕ)
writes address bytes mem = ok bytes

write_memory-read_memory_example :
    (out : HexOutput) × (read_memory none (ok 4096) 2 reads ≡ ok out)
    × (out.returned_length ≡ 2)
    × (out.truncated ≡ false)
    × (write_memory none (ok 8192) out.hex writes []
        ≡ (ok (record { done = true; bytes_written = 2 }), two_bytes))
write_memory-read_memory_example =
    write_memory-read_memory 4096 8192 2 two_bytes reads writes [] two_bytes two_bytes-IsBytes refl
      refl

abbrev kernel : Module
kernel = record {
  module_name = codes "nt";
  image_name = codes "ntoskrnl.exe";
  base = 4096;
  module_size = 512;
  timestamp = 0;
  checksum = 0;
  symbol_type = 3;
}

abbrev never : Text → Text → Option Bool
never glob name = some false

read_modules_complete_example :
    read_modules (kernel ∷ kernel ∷ []) never (pos 1) 2 0
    ≡ format_module kernel ∷ format_module kernel ∷ []
read_modules_complete_example =
    read_modules_complete (kernel ∷ kernel ∷ []) never (pos 1) 1 (omega arith)

abbrev top : Frame
top = record {
  instruction_offset = 1;
  return_offset = 2;
  frame_offset = 3;
  stack_offset = 4;
  module_name = [];
  function = [];
  displacement = 0;
  source_file = [];
  source_line = 0;
}

abbrev watch : Breakpoint
watch = record {
  id = 0;
  address = 4096;
  expression = [];
  enabled = true;
  is_data = true;
  size = 4;
  access = 3;
  pass_count = 1;
  current_pass = 1;
  match_thread_id = 7;
  command = [];
}

parse_breakpoint_access-format_breakpoint_example :
    parse_breakpoint_access (format_breakpoint watch).access ≡ ok 3
parse_breakpoint_access-format_breakpoint_example =
    parse_breakpoint_access-format_breakpoint watch (omega arith)
