-- ===== src/Session/Runs.antt =====
-- Running a composed program: the first part, then the rest on its answer and the state it leaves.
use go_kd.Prelude.{◌≡◌, refl, ◌∙◌, ap}
use go_kd.Session.{Command, AnswerOf, Program, bind, run, done, call}

pub run-bind :
    {A B M : Type 0} (engine : (c : Command) → M → AnswerOf c × M) (p : Program A)
    (k : A → Program B) (m : M)
    → run engine (bind p k) m ≡ run engine (k (run engine p m).0) (run engine p m).1
unfolding run bind
run-bind engine (done a) k m = refl
run-bind engine (call c f) k m = run-bind engine (f (engine c m).0) k (engine c m).1

-- the same, where the run of the first part is known
pub run-bind_at :
    {A B M : Type 0} (engine : (c : Command) → M → AnswerOf c × M) (p : Program A)
    (k : A → Program B) (m : M) {a : A} {m' : M}
    → run engine p m ≡ (a, m')
    → run engine (bind p k) m ≡ run engine (k a) m'
run-bind_at engine p k m h = run-bind engine p k m ∙ ap (λ r. run engine (k r.0) r.1) h
