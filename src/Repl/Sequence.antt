-- ===== src/Repl/Sequence.antt =====
-- A string of commands runs its parts one after the other, up to the first that fails or quits.
use go_kd.Prelude.{◌≡◌, ◌≢◌, refl, ◌∙◌, Option, none, some, List, [], ◌∷◌, ◌++◌}
use go_kd.Text.{Text}
use go_kd.Errors.{Result, ok, err}
use go_kd.Session.{Context, Command, AnswerOf, run}
use go_kd.Session.Runs.{run-bind_at}
use go_kd.Repl.Lines.{run_line, run_next, run_parts}

-- the result of a string that ends so
abbrev pub final : Option (Result (Unit {0})) → Result (Unit {0})
final none = ok tt
final (some r) = r

module _ {M : Type 0} (engine : (c : Command) → M → AnswerOf c × M) (ctx : Context) where
  -- Parts that all run without an error or a quit, and the state that they leave.
  pub data Passes : M → List Text → M → Type 0 where
    none_left : {m : M} → Passes m [] m
    passed :
        {m m' m'' : M} {part : Text} {parts : List Text}
        → run engine (run_line ctx part) m ≡ (some (ok tt), m')
        → Passes m' parts m''
        → Passes m (part ∷ parts) m''

  run_parts-passed :
      (parts rest : List Text) (m m' : M)
      → Passes m parts m'
      → run engine (run_parts ctx (parts ++ rest)) m ≡ run engine (run_parts ctx rest) m'
  unfolding run_parts run_next
  run_parts-passed [] rest m m' none_left = refl
  run_parts-passed (part ∷ parts) rest m m' (passed e more) =
      run-bind_at engine (run_line ctx part) _ m e ∙ run_parts-passed parts rest _ m' more

  -- When all parts before one run without an error, and that one fails or quits, then nothing behind it
  -- runs: the string of commands ends with that part's error, or without one for a quit, in the state
  -- that the part left.
  pub run_parts-stops :
      (parts rest : List Text) (part : Text) (end : Option (Result (Unit {0}))) (m m' m'' : M)
      → Passes m parts m'
      → run engine (run_line ctx part) m' ≡ (end, m'')
      → end ≢ some (ok tt)
      → run engine (run_parts ctx (parts ++ (part ∷ rest))) m ≡ (final end, m'')
  unfolding run_parts run_next run
  run_parts-stops parts rest part none m m' m'' before stop ends =
      run_parts-passed parts (part ∷ rest) m m' before
      ∙ run-bind_at engine (run_line ctx part) _ m' stop
  run_parts-stops parts rest part (some (err e)) m m' m'' before stop ends =
      run_parts-passed parts (part ∷ rest) m m' before
      ∙ run-bind_at engine (run_line ctx part) _ m' stop
  run_parts-stops parts rest part (some (ok u)) m m' m'' before stop ends = absurd (ends refl)
