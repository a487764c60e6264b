-- ===== src/Session/Returns.antt =====
-- What holds of every value that a program can return, whatever the bindings answer.
use go_kd.Prelude.{Bool, true, false, if◌then◌else◌}
use go_kd.Session.{Command, AnswerOf, Program, bind, run, done, call}

unfoldable pub Returns : {A : Type 0} → (A → Type 0) → Program A → Type 0
Returns P (done a) = P a
Returns P (call c k) = (r : AnswerOf c) → Returns P (k r)

pub Returns-bind :
    {A B : Type 0} (P : A → Type 0) (Q : B → Type 0) (p : Program A) (k : A → Program B)
    → Returns P p
    → ((a : A) → P a → Returns Q (k a))
    → Returns Q (bind p k)
unfolding Returns bind
Returns-bind P Q (done a) k h g = g a h
Returns-bind P Q (call c f) k h g = λ r. Returns-bind P Q (f r) k (h r) g

-- the same where nothing is known of the first part
pub Returns-any :
    {A B : Type 0} (Q : B → Type 0) (p : Program A) (k : A → Program B)
    → ((a : A) → Returns Q (k a))
    → Returns Q (bind p k)
unfolding Returns bind
Returns-any Q (done a) k g = g a
Returns-any Q (call c f) k g = λ r. Returns-any Q (f r) k g

pub run-Returns :
    {A M : Type 0} (P : A → Type 0) (engine : (c : Command) → M → AnswerOf c × M) (p : Program A)
    (m : M)
    → Returns P p
    → P (run engine p m).0
unfolding Returns run
run-Returns P engine (done a) m h = h
run-Returns P engine (call c k) m h =
    run-Returns P engine (k (engine c m).0) (engine c m).1 (h (engine c m).0)

pub Returns-if :
    {A : Type 0} (P : A → Type 0) (b : Bool) (p q : Program A)
    → Returns P p
    → Returns P q
    → Returns P (if b then p else q)
Returns-if P true p q h g = h
Returns-if P false p q h g = g

pub Returns-done : {A : Type 0} (P : A → Type 0) (a : A) → P a → Returns P (done a)
unfolding Returns
Returns-done P a h = h
