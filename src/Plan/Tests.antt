-- ===== src/Plan/Tests.antt =====
-- Runs of the planner on concrete inputs.
use claude_contained.Cli.Config.{Config, initial_config}
use claude_contained.Runtime.Spec.{Profile}
use claude_contained.Plan.Step.{
  Step, symlink, PromptId, Prompt, answer_to, record_answer, no_answers,
}
use claude_contained.Plan.Facts.{AccountStateFacts, WorktreeLockCandidates, Facts, HostState}
use claude_contained.Base.{same_refl, true, false, arith, ◌≡◌}
use claude_contained.Plan.Facts.{HostPaths, new_host_paths}
use claude_contained.Plan.Account.{claude_json_steps, migrate_steps, link_steps}
use claude_contained.Plan.Facts.{SharedSkills}
use claude_contained.Plan.Mounts.{new_mount_registry}
use claude_contained.Plan.Skills.{shared_skills_mounts}
use claude_contained.Plan.Questions.{register_extra_mounts}
use claude_contained.Plan.Separate.{IsSeparate}
use claude_contained.Plan.SharedMounts.{shared_skills_mounts-IsSeparate}
use claude_contained.Plan.Disk.{
  Disk, Node, Target, probe, relocated, relocated_foreign, claude_json_steps-relocated,
}
use claude_contained.Plan.Build.{build, planned}
use claude_contained.Plan.Monad.{◌>>=◌, ◌>>◌, ask, emit, give}
use claude_contained.Plan.Questions.{worktree_git_question}
use claude_contained.Plan.Name.{deduplicate_name}
use claude_contained.Plan.Name.Fresh.{deduplicate_name-fresh}
use claude_contained.Plan.Replay.{build-Extends}
use claude_contained.Base.{Bool}
use claude_contained.Base.{◌≡◌, refl}
use claude_contained.Base.{true, false, ◌||◌, none}
use claude_contained.Base.{[], ◌∷◌, Extends}
use claude_contained.Base.{Bytes, bytes, same, contains}

abbrev no_locks : WorktreeLockCandidates
no_locks = record { repo = []; hidden = [] }

abbrev pub sample_account : AccountStateFacts
sample_account = record {
  exists = true;
  is_regular_file = true;
  is_symlink = false;
  shared_exists = false;
  shared_is_regular_file = false;
}

abbrev pub sample_config : Config
sample_config = record (initial_config (bytes "claude-contained") false) {
  custom_container_name = bytes "aic-web";
}

-- A Node.js project that is a worktree of another repository.
abbrev pub sample_facts : Facts
sample_facts = record {
  project_dir = bytes "/p";
  extra_mounts = (bytes "/lib", bytes "ro") ∷ [];
  worktree_main_repo = bytes "/r";
  git_config_exists = true;
  account_state = sample_account;
  node_overlay_dirs = bytes "/p" ∷ [];
  node_overlay_target_empty = λ d. true;
  running_containers = bytes "aic-web" ∷ bytes "aic-web-2" ∷ [];
  env = [];
  shared_skills = record { dir = []; codex_system_dir = false; dir_has_system = false; links = [] };
  worktree_locks = no_locks;
  worktree_locks_with_git_mount = no_locks;
  zellij_session = bytes "cc-p";
  derived_image = [];
  command_injection = λ b. none;
  project_claude_contained_exists = false;
}

abbrev pub sample_host : HostState
sample_host = record {
  home = bytes "/h";
  uid = bytes "501";
  gid = bytes "20";
  arch = bytes "arm64";
  hour = 9;
  minute = 5;
  memory = bytes "4G";
  dns_env = [];
  dns_env_set = false;
}

abbrev pub sample_profile : Profile
sample_profile = record {
  name = bytes "claude-contained";
  default_dns = [];
  not_running_prompt = [];
  host_forward_notice = [];
  readonly_remount_needs_existing_mountpoint = false;
}

abbrev pub no_lowering : Bytes → Bytes
no_lowering s = s

deduplicate_name-fresh_example :
    let running = bytes "aic-web" ∷ bytes "aic-web-2" ∷ [] in
    (contains running (deduplicate_name (bytes "aic-web") running) ≡ false)
    × ((contains running (bytes "aic-web")
          || same (deduplicate_name (bytes "aic-web") running) (bytes "aic-web"))
        ≡ true)
deduplicate_name-fresh_example =
    deduplicate_name-fresh (bytes "aic-web") (bytes "aic-web" ∷ bytes "aic-web-2" ∷ [])

abbrev worktree_prompt : Prompt
worktree_prompt = record {
  id = PromptId.worktree_git;
  text = bytes "Mount main repository's .git for full git access? [Y/n] ";
  default = true;
}

build-Extends_example :
    (answer_to worktree_prompt.id no_answers ≡ none)
    × Extends
        (build no_lowering sample_config sample_host sample_facts sample_profile
          (record_answer worktree_prompt.id true no_answers)).0.steps
        (build no_lowering sample_config sample_host sample_facts sample_profile no_answers).0.steps
unfolding build planned ◌>>=◌ ◌>>◌ ask emit give worktree_git_question
build-Extends_example =
    build-Extends no_lowering sample_config sample_host sample_facts sample_profile no_answers
      worktree_prompt true refl

abbrev sample_paths : HostPaths
sample_paths = new_host_paths sample_host false

-- A regular file at ~/.claude.json, nothing at the shared place.
abbrev fresh_disk : Disk
fresh_disk = record { original = Node.plain_file (bytes "{}"); shared = Target.missing }

-- A link that cannot be made.
abbrev no_links : Step → Bool
no_links (symlink target link) = true
no_links s = false

fresh_disk-relocated : (relocated sample_paths fresh_disk).1 ≡ true
unfolding claude_json_steps migrate_steps link_steps
fresh_disk-relocated =
    ground (arith, same_refl sample_paths.claude_json, same_refl sample_paths.shared_claude_json)

claude_json_steps-relocated_example :
    claude_json_steps sample_paths (probe (relocated sample_paths fresh_disk).0) ≡ []
claude_json_steps-relocated_example =
    claude_json_steps-relocated sample_paths fresh_disk fresh_disk-relocated

relocated_foreign_example :
    relocated sample_paths (record {
      original = Node.link_elsewhere (Target.holds (bytes "{}"));
      shared = Target.missing;
    })
    ≡ (record { original = Node.absent; shared = Target.missing }, true)
relocated_foreign_example = relocated_foreign sample_paths (Target.holds (bytes "{}"))

abbrev dangling_disk : Disk
dangling_disk = record {
  original = Node.link_elsewhere Target.missing;
  shared = Target.holds (bytes "{}");
}

-- A project with an extra mount, and a shared directory with one link out of it.
abbrev sample_skills : SharedSkills
sample_skills = record {
  dir = bytes "/s/skills";
  codex_system_dir = false;
  dir_has_system = false;
  links =
      record {
        path = bytes "/s/skills/a";
        resolved = bytes "/s/elsewhere/a";
        missing = false;
        is_dir = true;
        parent_dir = bytes "/s/elsewhere";
      }
      ∷ [];
}

shared_skills_mounts-IsSeparate_example :
    IsSeparate
      (bytes "/p" ∷ bytes "/lib" ∷ [])
      (shared_skills_mounts
        (register_extra_mounts ((bytes "/lib", bytes "ro") ∷ []) (new_mount_registry (bytes "/p")))
        sample_paths
        sample_skills
        true).0
shared_skills_mounts-IsSeparate_example =
    shared_skills_mounts-IsSeparate (bytes "/p") ((bytes "/lib", bytes "ro") ∷ []) sample_paths
      sample_skills true
