-- ===== src/Plan/OneLock.antt =====
-- How often a plan of internal/plan/plan.go locks worktrees.
use claude_contained.Cli.Config.{Config}
use claude_contained.Runtime.Spec.{Profile}
use claude_contained.Plan.Facts.{
  Facts, HostState, HostPaths, WorktreeLockCandidates, AccountStateFacts,
}
use claude_contained.Plan.Step.{Step, mkdir_all, print, Answers}
use claude_contained.Plan.Monad.{
  Outcome, done, asks, fails, Planning, run, continue_with, ◌>>=◌, ◌>>◌, give, emit,
}
use claude_contained.Plan.Locks.{
  locks_of, IsQuiet, quiet_steps, LocksOnce, quiet-LocksOnce, LocksOnce-quiet, Quiet, Once,
  give-Quiet, emit-Quiet, stop_with-Quiet, ask-Quiet, bind-Quiet, then-Quiet, if-Quiet,
}
use claude_contained.Plan.QuietSkills.{shared_skills_mounts-IsQuiet}
use claude_contained.Plan.Questions.{
  worktree_git_question, directory_steps, resource_dir_steps, wanted_name, name_steps, lock_steps,
  worktree_lock_question, forward_steps, shared_skills_part, sharing_outcome, overlay_steps,
  node_modules_question,
}
use claude_contained.Plan.Account.{
  account_state_steps, git_config_steps, claude_json_steps, migrate_steps, link_steps,
}
use claude_contained.Plan.Build.{planned}
use claude_contained.Plan.Name.{deduplicate_name}
use claude_contained.Plan.Locks.{mkdir_all-IsQuiet, IsQuiet-append}
use claude_contained.Plan.Facts.{below}
use claude_contained.Plan.Args.{overlay_target}
use claude_contained.Plan.Skills.{Sharing}
use claude_contained.Base.{◌≡◌, refl, inl, inr}
use claude_contained.Base.{
  Bool, true, false, not, ◌&&◌, ◌||◌, Option, none, some, if◌then◌else◌, if_either, Bool-cases,
}
use claude_contained.Base.{List, [], ◌∷◌, ◌++◌, map, is_nil}
use claude_contained.Base.{Bytes, bytes}

continue_with-Once :
    {A B : Type 0} (owner : Bytes) (steps : List Step) (o : Outcome A) (f : A → Planning B)
    (a : Answers)
    → IsQuiet steps
    → ((x : A) → Once owner (f x))
    → LocksOnce owner (continue_with steps o f a).0
continue_with-Once owner steps (done x) f a h hf =
    quiet-LocksOnce owner steps (run (f x) a).0 h ((hf x).once a)
continue_with-Once owner steps (asks p) f a h hf = inl h
continue_with-Once owner steps (fails e) f a h hf = inl h

continue_once-with :
    {A B : Type 0} (owner : Bytes) (steps : List Step) (o : Outcome A) (f : A → Planning B)
    (a : Answers)
    → LocksOnce owner steps
    → ((x : A) → Quiet (f x))
    → LocksOnce owner (continue_with steps o f a).0
continue_once-with owner steps (done x) f a h hf =
    LocksOnce-quiet owner steps (run (f x) a).0 h ((hf x).quiet a)
continue_once-with owner steps (asks p) f a h hf = h
continue_once-with owner steps (fails e) f a h hf = h

bind-Once :
    {A B : Type 0} (owner : Bytes) (m : Planning A) (f : A → Planning B)
    → Quiet m
    → ((x : A) → Once owner (f x))
    → Once owner (m >>= f)
unfolding ◌>>=◌
bind-Once owner m f hm hf = record {
  once = λ a. continue_with-Once owner (run m a).0 (run m a).1 f a (hm.quiet a) hf;
}

then-Once :
    {B : Type 0} (owner : Bytes) (m : Planning (Unit {0})) (k : Planning B)
    → Quiet m
    → Once owner k
    → Once owner (m >> k)
unfolding ◌>>◌
then-Once owner m k hm hk = bind-Once owner m (λ _. k) hm (λ _. hk)

Once-then :
    {B : Type 0} (owner : Bytes) (m : Planning (Unit {0})) (k : Planning B)
    → Once owner m
    → Quiet k
    → Once owner (m >> k)
unfolding ◌>>◌ ◌>>=◌
Once-then owner m k hm hk = record {
  once = λ a. continue_once-with owner (run m a).0 (run m a).1 (λ _. k) a (hm.once a) (λ _. hk);
}

ruleset quietness =
    (give-Quiet, emit-Quiet, stop_with-Quiet, ask-Quiet, bind-Quiet, then-Quiet, if-Quiet)

worktree_git_question-Quiet : (cfg : Config) (f : Facts) → Quiet (worktree_git_question cfg f)
unfolding worktree_git_question
worktree_git_question-Quiet cfg f = search (quietness, quiet_steps) depth 14

resource_dir_steps-IsQuiet :
    (paths : HostPaths) (rs : List Bytes) → IsQuiet (resource_dir_steps paths rs)
unfolding resource_dir_steps
resource_dir_steps-IsQuiet paths [] = search quiet_steps
resource_dir_steps-IsQuiet paths (r ∷ rs) =
    let rest = resource_dir_steps paths rs in
    let more : IsQuiet (mkdir_all (below paths.claude_profile_dir r) ∷ rest) =
      search (quiet_steps, resource_dir_steps-IsQuiet paths rs) in
    mkdir_all-IsQuiet (below paths.claude_dir r)
      (mkdir_all (below paths.claude_profile_dir r) ∷ rest) more

directory_steps-IsQuiet :
    (cfg : Config) (paths : HostPaths) (root : Bytes) → IsQuiet (directory_steps cfg paths root)
unfolding directory_steps
directory_steps-IsQuiet cfg paths root = search (quiet_steps, resource_dir_steps-IsQuiet) depth 14

name_steps-IsQuiet : (cfg : Config) → IsQuiet (name_steps cfg)
unfolding name_steps
name_steps-IsQuiet cfg = search quiet_steps

prints-IsQuiet : (lines : List Bytes) → IsQuiet (map (λ line. print line true) lines)
prints-IsQuiet [] = search quiet_steps
prints-IsQuiet (l ∷ lines) = search (quiet_steps, prints-IsQuiet lines)

forward_steps-IsQuiet : (cfg : Config) (prof : Profile) → IsQuiet (forward_steps cfg prof)
unfolding forward_steps
forward_steps-IsQuiet cfg prof = search (quiet_steps, prints-IsQuiet)

migrate_steps-IsQuiet :
    (paths : HostPaths) (a : AccountStateFacts) → IsQuiet (migrate_steps paths a).0
unfolding migrate_steps
migrate_steps-IsQuiet paths a =
    if_either {A = List Step × Bool} (λ r. IsQuiet r.0) (a.is_regular_file && not a.is_symlink) _ _
      (search quiet_steps)
      (if_either {A = List Step × Bool} (λ r. IsQuiet r.0) (a.is_symlink && not a.shared_exists) _ _
        (search quiet_steps) (search quiet_steps))

account_state_steps-IsQuiet :
    (paths : HostPaths) (f : Facts) → IsQuiet (account_state_steps paths f)
unfolding account_state_steps git_config_steps claude_json_steps link_steps
account_state_steps-IsQuiet paths f = search (quiet_steps, migrate_steps-IsQuiet) depth 8

sharing_outcome-Quiet :
    (r : Sharing × Option (List Bytes)) → IsQuiet r.0.steps → Quiet (sharing_outcome r)
sharing_outcome-Quiet (s, none) h = then-Quiet _ _ (emit-Quiet s.steps h) (give-Quiet s.args)
sharing_outcome-Quiet (s, some lines) h =
    then-Quiet _ _ (emit-Quiet s.steps h) (stop_with-Quiet lines)

shared_skills_part-Quiet :
    (f : Facts) (paths : HostPaths) (prof : Profile) → Quiet (shared_skills_part f paths prof)
unfolding shared_skills_part
shared_skills_part-Quiet f paths prof =
    search (quietness, sharing_outcome-Quiet, shared_skills_mounts-IsQuiet)

overlay_steps-IsQuiet :
    (arch : Bytes) (empty : Bytes → Bool) (dirs : List Bytes)
    → IsQuiet (overlay_steps arch empty dirs)
unfolding overlay_steps
overlay_steps-IsQuiet arch empty [] = search quiet_steps
overlay_steps-IsQuiet arch empty (dir ∷ dirs) =
    let target = overlay_target arch dir in
    let created =
      if empty dir
      then print (bytes "Created " ++ target) true
        ∷ print (bytes "  Run 'npm install' (or your package manager) inside the container.") true
        ∷ []
      else [] in
    let here : IsQuiet created = search quiet_steps in
    mkdir_all-IsQuiet target (created ++ overlay_steps arch empty dirs) (
      IsQuiet-append created (overlay_steps arch empty dirs) here
        (overlay_steps-IsQuiet arch empty dirs))

node_modules_question-Quiet :
    (cfg : Config) (h : HostState) (f : Facts) → Quiet (node_modules_question cfg h f)
unfolding node_modules_question
node_modules_question-Quiet cfg h f =
    search (quietness, quiet_steps, overlay_steps-IsQuiet) depth 12

lock_steps-LocksOnce :
    (c : WorktreeLockCandidates) (name : Bytes) (b : Bool)
    → is_nil c.repo ≡ false
    → LocksOnce name (lock_steps c name b)
unfolding lock_steps locks_of
lock_steps-LocksOnce c name true n = inr (c.repo, n, refl)
lock_steps-LocksOnce c name false n = inl (search quiet_steps)

emit-Once : (owner : Bytes) (steps : List Step) → LocksOnce owner steps → Once owner (emit steps)
unfolding emit
emit-Once owner steps h = record { once = λ a. h }

Quiet-Once : {A : Type 0} (owner : Bytes) (m : Planning A) → Quiet m → Once owner m
Quiet-Once owner m h = record { once = λ a. inl (h.quiet a) }

no_repo :
    (cfg : Config) (c : WorktreeLockCandidates) (name : Bytes)
    → is_nil c.repo ≡ true
    → Quiet (worktree_lock_question cfg c name)
unfolding worktree_lock_question
no_repo cfg c name e = rw e (give-Quiet tt)

-- The question with a repository that is named.
worktree_lock_question-named :
    (cfg : Config) (c : WorktreeLockCandidates) (name : Bytes)
    → is_nil c.repo ≡ false
    → Once name (worktree_lock_question cfg c name)
unfolding worktree_lock_question
worktree_lock_question-named cfg c name n =
    if_either (Once name) (is_nil c.repo || is_nil c.hidden) _ _
      (Quiet-Once name (give tt) (give-Quiet tt))
      (search (then-Once, bind-Once, quietness, quiet_steps, emit-Once, lock_steps-LocksOnce c name)
        depth 12)

worktree_lock_question-Once :
    (cfg : Config) (c : WorktreeLockCandidates) (name : Bytes)
    → Once name (worktree_lock_question cfg c name)
worktree_lock_question-Once cfg c name = elim (Bool-cases (is_nil c.repo)) [
  | inl e ↦ Quiet-Once name _ (no_repo cfg c name e)
  | inr e ↦ worktree_lock_question-named cfg c name e
]

module _ (to_lower : Bytes → Bytes) (cfg : Config) (h : HostState) (f : Facts)
    (prof : Profile) where
  -- The owner of the locks, which is the name of the container.
  abbrev pub lock_owner_of : Bytes
  lock_owner_of = deduplicate_name (wanted_name to_lower cfg h f) f.running_containers

  planned-Once : Once lock_owner_of (planned to_lower cfg h f prof)
  unfolding planned
  planned-Once =
      search
        (
          then-Once, bind-Once, Once-then, quietness, worktree_git_question-Quiet,
          directory_steps-IsQuiet, name_steps-IsQuiet, worktree_lock_question-Once,
          forward_steps-IsQuiet, account_state_steps-IsQuiet, shared_skills_part-Quiet,
          node_modules_question-Quiet,
        )
        depth 16

  -- A plan has at most one step that locks worktrees, in a repository that is named, for the name of the
  -- container.
  pub planned-LocksOnce :
      (a : Answers) → LocksOnce lock_owner_of (run (planned to_lower cfg h f prof) a).0
  planned-LocksOnce = planned-Once.once
