-- ===== src/Plan/Monad.antt =====
-- The control flow of `Build`: steps are emitted in order, a question without an answer stops the
-- planning with the question pending, and an error stops it with the lines of the error. What was
-- emitted before stays in each case.
use claude_contained.Plan.Step.{Step, PromptId, Prompt, Answers, answer_to}
use claude_contained.Base.{Bool, true, Option, none, some}
use claude_contained.Base.{List, [], ◌++◌}
use claude_contained.Base.{Bytes}

pub data Outcome (A : Type 0) : Type 0 where
  done : A → Outcome A
  asks : Prompt → Outcome A
  fails : List Bytes → Outcome A

pub data Planning (A : Type 0) : Type 0 where
  planning : (Answers → List Step × Outcome A) → Planning A

abbrev pub run : {A : Type 0} → Planning A → Answers → List Step × Outcome A
run (planning m) = m

-- The rest of the planning, behind the steps emitted so far.
abbrev pub continue_with :
    {A B : Type 0} → List Step → Outcome A → (A → Planning B) → Answers → List Step × Outcome B
continue_with steps (done a) f ans = (steps ++ (run (f a) ans).0, (run (f a) ans).1)
continue_with steps (asks p) f ans = (steps, asks p)
continue_with steps (fails e) f ans = (steps, fails e)

infixl 5 ◌>>=◌ ◌>>◌
unfoldable pub ◌>>=◌ : {A B : Type 0} → Planning A → (A → Planning B) → Planning B
m >>= f = planning (λ ans. continue_with (run m ans).0 (run m ans).1 f ans)

unfoldable pub ◌>>◌ : {B : Type 0} → Planning (Unit {0}) → Planning B → Planning B
unfolding ◌>>=◌
m >> k = m >>= λ _. k

unfoldable pub give : {A : Type 0} → A → Planning A
give a = planning (λ ans. ([], done a))

unfoldable pub emit : List Step → Planning (Unit {0})
emit steps = planning (λ ans. (steps, done tt))

unfoldable pub stop_with : {A : Type 0} → List Bytes → Planning A
stop_with lines = planning (λ ans. ([], fails lines))

-- What a question comes to, given the answer recorded for it. Every question defaults to yes.
abbrev pub replied : PromptId → Bytes → Option Bool → List Step × Outcome Bool
replied id text (some b) = ([], done b)
replied id text none = ([], asks (record { id = id; text = text; default = true }))

unfoldable pub ask : PromptId → Bytes → Planning Bool
ask id text = planning (λ ans. replied id text (answer_to id ans))
