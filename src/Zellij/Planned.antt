-- ===== src/Zellij/Planned.antt =====
-- internal/zellij/zellij.go: the session that is found in the environment of a run which internal/plan/plan.go
-- plans.
use claude_contained.Cli.Config.{Config}
use claude_contained.Env.Store.{pairs}
use claude_contained.Env.Invariant.{Operation}
use claude_contained.Env.Invariant.{run as run_operations}
use claude_contained.Runtime.Spec.{
  Arg, memory_arg, name_arg, workdir_arg, port_arg, dns_arg, env_arg, label_arg, mount_arg, ssh_arg,
  host_gateway_arg, RunSpec, Profile,
}
use claude_contained.Runtime.ReadBack.{assignments}
use claude_contained.Runtime.Inspect.{env_lines, is_one_line, env_lines-assignments}
use claude_contained.Plan.Step.{Step, Answers}
use claude_contained.Plan.Facts.{Facts, HostState, HostPaths, new_host_paths}
use claude_contained.Plan.Monad.{
  Outcome, done, asks, fails, Planning, run, continue_with, ◌>>=◌, ◌>>◌, give, emit, stop_with,
}
use claude_contained.Plan.Mounts.{MountRecord, new_mount_registry}
use claude_contained.Plan.Separate.{readonly_mount}
use claude_contained.Plan.Skills.{Sharing, shared_skills_mounts}
use claude_contained.Plan.SharedMounts.{shared_skills_mounts-IsSeparate}
use claude_contained.Plan.Args.{fixed_args, extra_mount_args, overlay_args, run_spec}
use claude_contained.Plan.Name.{deduplicate_name}
use claude_contained.Plan.Questions.{
  wanted_name, register_extra_mounts, sharing_outcome, shared_skills_part, node_modules_question,
}
use claude_contained.Plan.Build.{run_of, planned, build}
use claude_contained.Zellij.Resolve.{session_from_env}
use claude_contained.Zellij.Discovery.{session_from_env-fixed_args}
use claude_contained.Base.{◌≡◌, refl, ap, ◌∙◌, subst}
use claude_contained.Base.{true, Option, none, some, if◌then◌else◌, if_either}
use claude_contained.Base.{List, [], ◌∷◌, ◌++◌, map, append-nil, is_nil, every}
use claude_contained.Base.{Bytes}

-- What a planning gives, if it gives something.
abbrev Satisfies : {A : Type 0} → (A → Type 0) → Outcome A → Type 0
Satisfies P (done a) = P a
Satisfies P (asks p) = Unit
Satisfies P (fails e) = Unit

record Gives {A : Type 0} (P : A → Type 0) (m : Planning A) : Type 0 where
  given : (ans : Answers) → Satisfies P (run m ans).1

continued :
    {A B : Type 0} (Q : A → Type 0) (P : B → Type 0) (steps : List Step) (o : Outcome A)
    (f : A → Planning B) (ans : Answers)
    → Satisfies Q o
    → ((a : A) → Q a → Gives P (f a))
    → Satisfies P (continue_with steps o f ans).1
continued Q P steps (done a) f ans q h = (h a q).given ans
continued Q P steps (asks p) f ans q h = tt
continued Q P steps (fails e) f ans q h = tt

bind-Gives :
    {A B : Type 0} (Q : A → Type 0) (P : B → Type 0) (m : Planning A) (f : A → Planning B)
    → Gives Q m
    → ((a : A) → Q a → Gives P (f a))
    → Gives P (m >>= f)
unfolding ◌>>=◌
bind-Gives Q P m f g h = record {
  given = λ ans. continued Q P (run m ans).0 (run m ans).1 f ans (g.given ans) h;
}

anything : {A : Type 0} (o : Outcome A) → Satisfies (λ a. Unit {0}) o
anything (done a) = tt
anything (asks p) = tt
anything (fails e) = tt

any-Gives : {A : Type 0} (m : Planning A) → Gives (λ a. Unit {0}) m
any-Gives m = record { given = λ ans. anything (run m ans).1 }

then-Gives :
    {B : Type 0} (P : B → Type 0) (m : Planning (Unit {0})) (k : Planning B)
    → Gives P k
    → Gives P (m >> k)
unfolding ◌>>◌
then-Gives P m k g = bind-Gives (λ a. Unit {0}) P m (λ a. k) (any-Gives m) (λ a u. g)

give-Gives : {A : Type 0} (P : A → Type 0) (a : A) → P a → Gives P (give a)
unfolding give
give-Gives P a h = record { given = λ ans. h }

-- Arguments that set no variable.
abbrev SetsNone : List Arg → Type 0
SetsNone args = assignments args ≡ []

assignments-append : (xs ys : List Arg) → assignments (xs ++ ys) ≡ assignments xs ++ assignments ys
assignments-append [] ys = refl
assignments-append (env_arg k v ∷ xs) ys = ap (λ l. (k ++ b'=' ∷ v) ∷ l) (assignments-append xs ys)
assignments-append (memory_arg v ∷ xs) ys = assignments-append xs ys
assignments-append (name_arg v ∷ xs) ys = assignments-append xs ys
assignments-append (workdir_arg v ∷ xs) ys = assignments-append xs ys
assignments-append (port_arg v ∷ xs) ys = assignments-append xs ys
assignments-append (dns_arg v ∷ xs) ys = assignments-append xs ys
assignments-append (label_arg k v ∷ xs) ys = assignments-append xs ys
assignments-append (mount_arg s d r ∷ xs) ys = assignments-append xs ys
assignments-append (ssh_arg ∷ xs) ys = assignments-append xs ys
assignments-append (host_gateway_arg ∷ xs) ys = assignments-append xs ys

extra_mount_args-SetsNone : (ms : List (Bytes × Bytes)) → SetsNone (extra_mount_args ms)
unfolding extra_mount_args
extra_mount_args-SetsNone [] = refl
extra_mount_args-SetsNone ((src, mode) ∷ ms) = extra_mount_args-SetsNone ms

overlay_args-SetsNone : (arch : Bytes) (dirs : List Bytes) → SetsNone (overlay_args arch dirs)
unfolding overlay_args
overlay_args-SetsNone arch [] = refl
overlay_args-SetsNone arch (d ∷ dirs) = overlay_args-SetsNone arch dirs

readonly_mounts-SetsNone : (recs : List MountRecord) → SetsNone (map readonly_mount recs)
readonly_mounts-SetsNone [] = refl
readonly_mounts-SetsNone (rec ∷ recs) = readonly_mounts-SetsNone recs

sharing_outcome-Gives :
    (s : Sharing) (e : Option (List Bytes))
    → SetsNone s.args
    → Gives SetsNone (sharing_outcome (s, e))
unfolding stop_with
sharing_outcome-Gives s none h =
    then-Gives SetsNone (emit s.steps) (give s.args) (give-Gives SetsNone s.args h)
sharing_outcome-Gives s (some lines) h =
    then-Gives SetsNone (emit s.steps) (stop_with lines) (record { given = λ ans. tt })

shared_skills_part-Gives :
    (f : Facts) (paths : HostPaths) (prof : Profile)
    → Gives SetsNone (shared_skills_part f paths prof)
unfolding shared_skills_part
shared_skills_part-Gives f paths prof =
    let ss = f.shared_skills in
    let r =
      shared_skills_mounts (register_extra_mounts f.extra_mounts (new_mount_registry f.project_dir))
        paths ss prof.readonly_remount_needs_existing_mountpoint in
    let i =
      shared_skills_mounts-IsSeparate f.project_dir f.extra_mounts paths ss
        prof.readonly_remount_needs_existing_mountpoint in
    if_either (Gives SetsNone) (is_nil ss.dir) (give []) (sharing_outcome r)
      (give-Gives SetsNone [] refl)
      (sharing_outcome-Gives r.0 r.1
        (ap assignments i.mounts ∙ readonly_mounts-SetsNone r.0.registry.shared))

node_modules_question-Gives :
    (cfg : Config) (h : HostState) (f : Facts) → Gives SetsNone (node_modules_question cfg h f)
unfolding node_modules_question
node_modules_question-Gives cfg h f =
    if_either (Gives SetsNone) (is_nil f.node_overlay_dirs) _ _ (give-Gives SetsNone [] refl) (
      bind-Gives (λ b. Unit {0}) SetsNone _ _ (any-Gives _)
        (λ b u. then-Gives SetsNone _ _ (
          give-Gives SetsNone (if b then overlay_args h.arch f.node_overlay_dirs else []) (
            if_either SetsNone b (overlay_args h.arch f.node_overlay_dirs) []
              (overlay_args-SetsNone h.arch f.node_overlay_dirs) refl))))

module _ (to_lower : Bytes → Bytes) (cfg : Config) (h : HostState) (f : Facts)
    (prof : Profile) where
  abbrev paths_of : HostPaths
  paths_of = new_host_paths h cfg.share_host_claude

  -- The variables of a run are those of the arguments in front of the mounts.
  abbrev HasFixedVariables : RunSpec → Type 0
  HasFixedVariables spec =
      (repo : Bytes) × (name : Bytes) × (assignments spec.args
        ≡ assignments (fixed_args cfg h f prof paths_of repo name))

  run_spec-HasFixedVariables :
      (repo name : Bytes) (skills overlay : List Arg)
      → SetsNone skills
      → SetsNone overlay
      → HasFixedVariables (
          run_spec cfg f prof (
            fixed_args cfg h f prof paths_of repo name
            ++ extra_mount_args f.extra_mounts
            ++ skills
            ++ overlay))
  unfolding run_spec
  run_spec-HasFixedVariables repo name skills overlay s o =
      let fixed = fixed_args cfg h f prof paths_of repo name in
      let extra = extra_mount_args f.extra_mounts in
      (
        repo,
        name,
        assignments-append (fixed ++ extra ++ skills) overlay
            ∙ ap (λ l. assignments (fixed ++ extra ++ skills) ++ l) o
            ∙ append-nil (assignments (fixed ++ extra ++ skills))
            ∙ assignments-append (fixed ++ extra) skills
            ∙ ap (λ l. assignments (fixed ++ extra) ++ l) s
            ∙ append-nil (assignments (fixed ++ extra))
            ∙ assignments-append fixed extra
            ∙ ap (λ l. assignments fixed ++ l) (extra_mount_args-SetsNone f.extra_mounts)
            ∙ append-nil (assignments fixed),
      )

  planned-Gives : Gives HasFixedVariables (planned to_lower cfg h f prof)
  unfolding planned
  planned-Gives =
      let P = HasFixedVariables in
      let name = deduplicate_name (wanted_name to_lower cfg h f) f.running_containers in
      bind-Gives (λ b. Unit {0}) P _ _ (any-Gives _)
        (λ repo u. then-Gives P _ _ (
          then-Gives P _ _ (
            then-Gives P _ _ (
              then-Gives P _ _ (
                then-Gives P _ _ (
                  bind-Gives SetsNone P _ _ (shared_skills_part-Gives f paths_of prof) (λ skills s.
                    bind-Gives SetsNone P _ _ (node_modules_question-Gives cfg h f) (λ overlay o.
                      give-Gives P _
                        (run_spec-HasFixedVariables repo name skills overlay s o)))))))))

  run_of-Satisfies :
      (o : Outcome RunSpec) (spec : RunSpec)
      → run_of o ≡ some spec
      → Satisfies HasFixedVariables o
      → HasFixedVariables spec
  run_of-Satisfies (done a) spec e k = let q : a ≡ spec = cc in subst HasFixedVariables q k
  run_of-Satisfies (asks p) spec e k = cc
  run_of-Satisfies (fails lines) spec e k = cc

  -- When the environment of a plan is that of any store that the launcher can reach, and no variable of
  -- the planned run has a newline in its value, `SessionFromEnv` finds in what the container runtime tells
  -- of these variables exactly the session that was planned, and none if there was none: no variable from
  -- the command line or the project file can announce another session.
  pub session_from_env-build :
      (os : List Operation) (ans : Answers) (spec : RunSpec)
      → f.env ≡ pairs (run_operations os [])
      → (build to_lower cfg h f prof ans).0.run ≡ some spec
      → every is_one_line (assignments spec.args) ≡ true
      → session_from_env (env_lines spec.args) ≡ f.zellij_session
  unfolding build
  session_from_env-build os ans spec e q l =
      let o = (run (planned to_lower cfg h f prof) ans).1 in
      let (repo, name, same_variables) = run_of-Satisfies o spec q (planned-Gives.given ans) in
      ap session_from_env (env_lines-assignments spec.args l ∙ same_variables)
      ∙ session_from_env-fixed_args cfg h f prof paths_of os repo name e
