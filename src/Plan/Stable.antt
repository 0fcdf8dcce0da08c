-- ===== src/Plan/Stable.antt =====
-- Plannings under more answers: what a planning that stopped at a question has to do with itself once
-- the question is answered.
use claude_contained.Plan.Step.{
  worktree_git, node_modules, worktree_locks, record_answer, Step, PromptId, Answers, answer_to,
  Prompt,
}
use claude_contained.Plan.Monad.{
  Outcome, done, asks, fails, Planning, run, continue_with, ◌>>=◌, ◌>>◌, give, emit, stop_with, ask,
  replied,
}
use claude_contained.Base.{◌≡◌, refl, sym, ap, ◌∙◌, subst}
use claude_contained.Base.{Bool, true, false, Option, none, some, if◌then◌else◌}
use claude_contained.Base.{List, [], ◌++◌, append_assoc, Extends}
use claude_contained.Base.{Bytes}

abbrev Kept : Option Bool → Option Bool → Type 0
Kept none o = Unit
Kept (some b) o = o ≡ some b

-- Every answer of the first is an answer of the second.
abbrev pub Later : Answers → Answers → Type 0
Later a b = (id : PromptId) → Kept (answer_to id a) (answer_to id b)

Kept-refl : (o : Option Bool) → Kept o o
Kept-refl none = tt
Kept-refl (some b) = refl

-- Answering a question that had no answer keeps the others.
pub Later-record_answer :
    (id : PromptId) (b : Bool) (a : Answers)
    → answer_to id a ≡ none
    → Later a (record_answer id b a)
Later-record_answer worktree_git b a e worktree_git = rw e tt
Later-record_answer worktree_git b a e node_modules = Kept-refl (answer_to node_modules a)
Later-record_answer worktree_git b a e worktree_locks = Kept-refl (answer_to worktree_locks a)
Later-record_answer node_modules b a e worktree_git = Kept-refl (answer_to worktree_git a)
Later-record_answer node_modules b a e node_modules = rw e tt
Later-record_answer node_modules b a e worktree_locks = Kept-refl (answer_to worktree_locks a)
Later-record_answer worktree_locks b a e worktree_git = Kept-refl (answer_to worktree_git a)
Later-record_answer worktree_locks b a e node_modules = Kept-refl (answer_to node_modules a)
Later-record_answer worktree_locks b a e worktree_locks = rw e tt

-- What the outcome with more answers has to do with the outcome with fewer.
abbrev pub Continues : {A : Type 0} → List Step → Outcome A → List Step × Outcome A → Type 0
Continues steps (done a) r = r ≡ (steps, done a)
Continues steps (fails e) r = r ≡ (steps, fails e)
Continues steps (asks p) r = Extends r.0 steps

-- The question that stops a planning has no answer yet.
abbrev pub AsksNew : {A : Type 0} → Answers → Outcome A → Type 0
AsksNew ans (done a) = Unit
AsksNew ans (fails e) = Unit
AsksNew ans (asks p) = answer_to p.id ans ≡ none

pub record IsStable {A : Type 0} (m : Planning A) : Type 0 where
  pub continues : (a b : Answers) → Later a b → Continues (run m a).0 (run m a).1 (run m b)
  pub asks_new : (a : Answers) → AsksNew a (run m a).1

pub give-IsStable : {A : Type 0} (x : A) → IsStable (give x)
unfolding give
give-IsStable x = record { continues = λ a b l. refl; asks_new = λ a. tt }

pub emit-IsStable : (steps : List Step) → IsStable (emit steps)
unfolding emit
emit-IsStable steps = record { continues = λ a b l. refl; asks_new = λ a. tt }

pub stop_with-IsStable : {A : Type 0} (lines : List Bytes) → IsStable (stop_with {A = A} lines)
unfolding stop_with
stop_with-IsStable lines = record { continues = λ a b l. refl; asks_new = λ a. tt }

replied-Continues :
    (id : PromptId) (text : Bytes) (o o' : Option Bool)
    → Kept o o'
    → Continues (replied id text o).0 (replied id text o).1 (replied id text o')
replied-Continues id text none none k = ([], refl)
replied-Continues id text none (some b) k = ([], refl)
replied-Continues id text (some b) o' k = rw k

replied-AsksNew :
    (id : PromptId) (text : Bytes) (a : Answers) (o : Option Bool)
    → answer_to id a ≡ o
    → AsksNew a (replied id text o).1
replied-AsksNew id text a none e = e
replied-AsksNew id text a (some b) e = tt

pub ask-IsStable : (id : PromptId) (text : Bytes) → IsStable (ask id text)
unfolding ask
ask-IsStable id text = record {
  continues = λ a b l. replied-Continues id text (answer_to id a) (answer_to id b) (l id);
  asks_new = λ a. replied-AsksNew id text a (answer_to id a) refl;
}

Continues-append :
    {A : Type 0} (front steps : List Step) (o : Outcome A) (r : List Step × Outcome A)
    → Continues steps o r
    → Continues (front ++ steps) o (front ++ r.0, r.1)
Continues-append front steps (done x) r c = ap (λ t. (front ++ t.0, t.1)) c
Continues-append front steps (fails e) r c = ap (λ t. (front ++ t.0, t.1)) c
Continues-append front steps (asks p) r (more, c) =
    (more, ap (λ t. front ++ t) c ∙ sym (append_assoc front steps more))

bind-Continues :
    {A B : Type 0} (steps : List Step) (o : Outcome A) (r : List Step × Outcome A)
    (f : A → Planning B) (a b : Answers)
    → ((x : A) → IsStable (f x))
    → Later a b
    → Continues steps o r
    → Continues
        (continue_with steps o f a).0
        (continue_with steps o f a).1
        (continue_with r.0 r.1 f b)
bind-Continues steps (done x) r f a b h l c =
    rw c
      (Continues-append steps (run (f x) a).0 (run (f x) a).1 (run (f x) b) ((h x).continues a b l))
bind-Continues steps (fails e) r f a b h l c = rw c
bind-Continues steps (asks p) (steps', done y) f a b h l (more, c) =
    (more ++ (run (f y) b).0, rw c (append_assoc steps more (run (f y) b).0))
bind-Continues steps (asks p) (steps', asks q) f a b h l c = c
bind-Continues steps (asks p) (steps', fails e) f a b h l c = c

bind-AsksNew :
    {A B : Type 0} (steps : List Step) (o : Outcome A) (f : A → Planning B) (a : Answers)
    → ((x : A) → IsStable (f x))
    → AsksNew a o
    → AsksNew a (continue_with steps o f a).1
bind-AsksNew steps (done x) f a h n = (h x).asks_new a
bind-AsksNew steps (fails e) f a h n = tt
bind-AsksNew steps (asks p) f a h n = n

pub bind-IsStable :
    {A B : Type 0} (m : Planning A) (f : A → Planning B)
    → IsStable m
    → ((x : A) → IsStable (f x))
    → IsStable (m >>= f)
unfolding ◌>>=◌
bind-IsStable m f hm hf = record {
  continues =
      λ a b l. bind-Continues (run m a).0 (run m a).1 (run m b) f a b hf l (hm.continues a b l);
  asks_new = λ a. bind-AsksNew (run m a).0 (run m a).1 f a hf (hm.asks_new a);
}

pub then-IsStable :
    {B : Type 0} (m : Planning (Unit {0})) (k : Planning B)
    → IsStable m
    → IsStable k
    → IsStable (m >> k)
unfolding ◌>>◌
then-IsStable m k hm hk = bind-IsStable m (λ _. k) hm (λ _. hk)

pub if-IsStable :
    {A : Type 0} (test : Bool) (m n : Planning A)
    → IsStable m
    → IsStable n
    → IsStable (if test then m else n)
if-IsStable true m n hm hn = hm
if-IsStable false m n hm hn = hn

-- More answers extend the steps of a planning that stopped at a question.
pub Continues-asks :
    {A : Type 0} (steps : List Step) (o : Outcome A) (q : Prompt) (r : List Step × Outcome A)
    → o ≡ asks q
    → Continues steps o r
    → Extends r.0 steps
Continues-asks steps (done x) q r e c = cc
Continues-asks steps (asks p) q r e c = c
Continues-asks steps (fails x) q r e c = cc

pub AsksNew-asks :
    {A : Type 0} (a : Answers) (o : Outcome A) (q : Prompt)
    → o ≡ asks q
    → AsksNew a o
    → answer_to q.id a ≡ none
AsksNew-asks a (done x) q e n = cc
AsksNew-asks a (asks p) q e n = subst (λ (r : Outcome _). AsksNew a r) e n
AsksNew-asks a (fails x) q e n = cc
