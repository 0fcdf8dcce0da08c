-- ===== src/Plan/Locks.antt =====
-- The steps of internal/plan/plan.go that lock worktrees.
use claude_contained.Plan.Step.{
  Step, mkdir_all, remove_file, copy_file, move_file, symlink, print, worktree_auto_lock, PromptId,
  Answers, answer_to,
}
use claude_contained.Plan.Monad.{
  Outcome, done, asks, fails, Planning, run, continue_with, ◌>>=◌, ◌>>◌, give, emit, stop_with, ask,
  replied,
}
use claude_contained.Base.{◌≡◌, refl, ap, ◌∙◌, ◌⊎◌, inl, inr}
use claude_contained.Base.{Bool, true, false, Option, none, some, if◌then◌else◌, if_either}
use claude_contained.Base.{List, [], ◌∷◌, ◌++◌, is_nil}
use claude_contained.Base.{Bytes}

-- The repository and the owner of each step that locks worktrees.
unfoldable pub locks_of : List Step → List (Bytes × Bytes)
locks_of [] = []
locks_of (worktree_auto_lock repo wts owner ∷ steps) = (repo, owner) ∷ locks_of steps
locks_of (mkdir_all path ∷ steps) = locks_of steps
locks_of (remove_file path ∷ steps) = locks_of steps
locks_of (copy_file src dst ∷ steps) = locks_of steps
locks_of (move_file src dst ∷ steps) = locks_of steps
locks_of (symlink target link ∷ steps) = locks_of steps
locks_of (print text to_stderr ∷ steps) = locks_of steps

pub locks_of-append : (xs ys : List Step) → locks_of (xs ++ ys) ≡ locks_of xs ++ locks_of ys
unfolding locks_of
locks_of-append [] ys = refl
locks_of-append (worktree_auto_lock repo wts owner ∷ xs) ys =
    ap (λ l. (repo, owner) ∷ l) (locks_of-append xs ys)
locks_of-append (mkdir_all path ∷ xs) ys = locks_of-append xs ys
locks_of-append (remove_file path ∷ xs) ys = locks_of-append xs ys
locks_of-append (copy_file src dst ∷ xs) ys = locks_of-append xs ys
locks_of-append (move_file src dst ∷ xs) ys = locks_of-append xs ys
locks_of-append (symlink target link ∷ xs) ys = locks_of-append xs ys
locks_of-append (print text to_stderr ∷ xs) ys = locks_of-append xs ys

-- None of the steps locks worktrees.
pub record IsQuiet (steps : List Step) : Type 0 where
  pub no_locks : locks_of steps ≡ []

-- At most one of them does, for this owner, in a repository that is named.
abbrev pub LocksOnce : Bytes → List Step → Type 0
LocksOnce owner steps =
    IsQuiet steps ⊎ ((repo : Bytes) × (is_nil repo ≡ false) × (locks_of steps ≡ (repo, owner) ∷ []))

pub IsQuiet-append : (xs ys : List Step) → IsQuiet xs → IsQuiet ys → IsQuiet (xs ++ ys)
IsQuiet-append xs ys hx hy = record {
  no_locks = locks_of-append xs ys ∙ ap (λ l. l ++ locks_of ys) hx.no_locks ∙ hy.no_locks;
}

pub IsQuiet-if :
    (b : Bool) (xs ys : List Step) → IsQuiet xs → IsQuiet ys → IsQuiet (if b then xs else ys)
IsQuiet-if b xs ys hx hy = if_either IsQuiet b xs ys hx hy

pub nil-IsQuiet : IsQuiet []
unfolding locks_of
nil-IsQuiet = record { no_locks = refl }

pub mkdir_all-IsQuiet :
    (p : Bytes) (steps : List Step) → IsQuiet steps → IsQuiet (mkdir_all p ∷ steps)
unfolding locks_of
mkdir_all-IsQuiet p steps h = record { no_locks = h.no_locks }

pub remove_file-IsQuiet :
    (p : Bytes) (steps : List Step) → IsQuiet steps → IsQuiet (remove_file p ∷ steps)
unfolding locks_of
remove_file-IsQuiet p steps h = record { no_locks = h.no_locks }

pub copy_file-IsQuiet :
    (p q : Bytes) (steps : List Step) → IsQuiet steps → IsQuiet (copy_file p q ∷ steps)
unfolding locks_of
copy_file-IsQuiet p q steps h = record { no_locks = h.no_locks }

pub move_file-IsQuiet :
    (p q : Bytes) (steps : List Step) → IsQuiet steps → IsQuiet (move_file p q ∷ steps)
unfolding locks_of
move_file-IsQuiet p q steps h = record { no_locks = h.no_locks }

pub symlink-IsQuiet :
    (p q : Bytes) (steps : List Step) → IsQuiet steps → IsQuiet (symlink p q ∷ steps)
unfolding locks_of
symlink-IsQuiet p q steps h = record { no_locks = h.no_locks }

pub print-IsQuiet :
    (t : Bytes) (b : Bool) (steps : List Step) → IsQuiet steps → IsQuiet (print t b ∷ steps)
unfolding locks_of
print-IsQuiet t b steps h = record { no_locks = h.no_locks }

pub ruleset quiet_steps = (
  nil-IsQuiet, mkdir_all-IsQuiet, remove_file-IsQuiet, copy_file-IsQuiet, move_file-IsQuiet,
  symlink-IsQuiet, print-IsQuiet, IsQuiet-append, IsQuiet-if,
)

pub quiet-LocksOnce :
    (owner : Bytes) (xs ys : List Step)
    → IsQuiet xs
    → LocksOnce owner ys
    → LocksOnce owner (xs ++ ys)
quiet-LocksOnce owner xs ys hx (inl q) = inl (IsQuiet-append xs ys hx q)
quiet-LocksOnce owner xs ys hx (inr (repo, n, e)) =
    inr (repo, n, locks_of-append xs ys ∙ ap (λ l. l ++ locks_of ys) hx.no_locks ∙ e)

pub LocksOnce-quiet :
    (owner : Bytes) (xs ys : List Step)
    → LocksOnce owner xs
    → IsQuiet ys
    → LocksOnce owner (xs ++ ys)
LocksOnce-quiet owner xs ys (inl q) hy = inl (IsQuiet-append xs ys q hy)
LocksOnce-quiet owner xs ys (inr (repo, n, e)) hy = inr (
  repo,
  n,
  locks_of-append xs ys ∙ ap (λ l. l ++ locks_of ys) e ∙ ap (λ l. (repo, owner) ∷ l) hy.no_locks,
)

-- The same of every run of a planning.
pub record Quiet {A : Type 0} (m : Planning A) : Type 0 where
  pub quiet : (a : Answers) → IsQuiet (run m a).0

pub record Once {A : Type 0} (owner : Bytes) (m : Planning A) : Type 0 where
  pub once : (a : Answers) → LocksOnce owner (run m a).0

pub give-Quiet : {A : Type 0} (x : A) → Quiet (give x)
unfolding give
give-Quiet x = record { quiet = λ a. nil-IsQuiet }

pub emit-Quiet : (steps : List Step) → IsQuiet steps → Quiet (emit steps)
unfolding emit
emit-Quiet steps h = record { quiet = λ a. h }

pub stop_with-Quiet : {A : Type 0} (lines : List Bytes) → Quiet (stop_with {A = A} lines)
unfolding stop_with
stop_with-Quiet lines = record { quiet = λ a. nil-IsQuiet }

replied-IsQuiet : (id : PromptId) (text : Bytes) (o : Option Bool) → IsQuiet (replied id text o).0
replied-IsQuiet id text none = nil-IsQuiet
replied-IsQuiet id text (some b) = nil-IsQuiet

pub ask-Quiet : (id : PromptId) (text : Bytes) → Quiet (ask id text)
unfolding ask
ask-Quiet id text = record { quiet = λ a. replied-IsQuiet id text (answer_to id a) }

continue_with-Quiet :
    {A B : Type 0} (steps : List Step) (o : Outcome A) (f : A → Planning B) (a : Answers)
    → IsQuiet steps
    → ((x : A) → Quiet (f x))
    → IsQuiet (continue_with steps o f a).0
continue_with-Quiet steps (done x) f a h hf =
    IsQuiet-append steps (run (f x) a).0 h ((hf x).quiet a)
continue_with-Quiet steps (asks p) f a h hf = h
continue_with-Quiet steps (fails e) f a h hf = h

pub bind-Quiet :
    {A B : Type 0} (m : Planning A) (f : A → Planning B)
    → Quiet m
    → ((x : A) → Quiet (f x))
    → Quiet (m >>= f)
unfolding ◌>>=◌
bind-Quiet m f hm hf = record {
  quiet = λ a. continue_with-Quiet (run m a).0 (run m a).1 f a (hm.quiet a) hf;
}

pub then-Quiet :
    {B : Type 0} (m : Planning (Unit {0})) (k : Planning B) → Quiet m → Quiet k → Quiet (m >> k)
unfolding ◌>>◌
then-Quiet m k hm hk = bind-Quiet m (λ _. k) hm (λ _. hk)

pub if-Quiet :
    {A : Type 0} (b : Bool) (m n : Planning A) → Quiet m → Quiet n → Quiet (if b then m else n)
if-Quiet true m n hm hn = hm
if-Quiet false m n hm hn = hn
