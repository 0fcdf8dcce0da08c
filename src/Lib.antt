-- ===== src/Lib.antt =====
-- claude-contained: a launcher that runs a command in a container of Apple Containers or Docker, with the
-- project mounted at its own path. It parses its command line, collects facts of the host, plans the
-- mutations of the host and the run, applies the plan while it asks what the plan needs to know, and
-- then starts the container; or it attaches to a container that runs.
--
-- The parts, and the files that model them:
--   * internal/env/env.go and internal/env/parse.go, the environment of the tool: Env/Store.antt
--     (`Store.Set` is `set`, `Store.Default` is `default`, `validate`, the summary) and Env/File.antt
--     (`Store.LoadFile` is `load_file`). A store is the list of its entries; an error is a value, and
--     `message` is its text.
--   * internal/cli/cli.go, the command line: Cli/Config.antt (`Config`), Cli/Arms.antt (which arm of the
--     switch a token takes), Cli/Parse.antt (what the arm does, and the loop) and Cli/Validate.antt
--     (`ValidateContext` is `validate_config`). The loop recurses on the tokens.
--   * internal/host/sanitize.go and internal/host/worktree.go: Host/Sanitize.antt and Host/Paths.antt; `ResolvePath` of
--     internal/host/path.go is `resolve_path_from` in Host/Realpath.antt, with os.Readlink a parameter;
--     Host/FilePath.antt is path/filepath on Unix as its documentation describes it. Lowercasing is a
--     parameter, and what is stated of a sanitized name holds for every function in its place.
--   * internal/runtime: Runtime/Spec.antt (the types of a run in runtime.go) and Runtime/Render.antt
--     (`RenderRun`, `RenderExec` and `RenderBuild` of docker.go and apple.go). The platform and the value
--     of SSH_AUTH_SOCK are parameters. Runtime/Selection.antt is `Select`, `ValidateSelection` and
--     `DiagnosticSelection`, with lowercasing a parameter; Runtime/Redaction.antt is `redactDiagnosticArgv`,
--     and Runtime/Inspect.antt how the variables of a run are read back (`splitEnvLines`).
--   * internal/layer, internal/host/layer.go and cmd/claude-contained/layer.go, the tooling layers:
--     Layer/Stream.antt (the stream and the tag, over what the walk of a directory visits),
--     Layer/Search.antt (`FindLayer` is `find_layer`), and `resolveLayerImage` in Layer/Commands.antt,
--     Layer/Image.antt and Layer/Choice.antt. The digest is a parameter, and so is the container runtime,
--     which answers a probe or a command with any function of what happened before.
--   * internal/plan: Plan/Step.antt (step.go), Plan/Facts.antt (facts.go, paths.go), Plan/Mounts.antt
--     (mounts.go), Plan/Skills.antt (sharedskills.go), Plan/Command.antt (command.go), and plan.go in
--     Plan/Name.antt, Plan/Account.antt, Plan/Args.antt, Plan/Questions.antt and Plan/Build.antt, where
--     `Build` is `build`. Plan/Monad.antt is the control flow of `Build`: steps, questions and errors.
--     Plan/Disk.antt runs the relocation of ~/.claude.json over the two places that it touches, where any
--     of its steps may fail; its `probe` is the part of cmd/claude-contained/probe.go that reads them.
--   * cmd/claude-contained/run.go, `buildAndApply` and `executor.apply`: Launch/Driver.antt. Which steps
--     fail is a parameter, and the answers of the user are a list. The end of `runWith` with the
--     worktree locks and the signals is Launch/Session.antt, where a signal that ends a prompt is the end
--     of the list; `completeEnv` is Launch/Environment.antt, `splitMountMode` Launch/Mode.antt and the
--     prompter Launch/Prompt.antt.
--   * internal/zellij/zellij.go: Zellij/Names.antt and Zellij/Resolve.antt. The hash of a path is a
--     parameter.
--   * internal/host/worktreelock.go and `HiddenWorktrees` of internal/host/worktree.go, the locks that keep
--     git in a container from pruning worktrees it cannot see: Worktree/Owners.antt (the text of a lock),
--     Worktree/Lock.antt (`addAutoLockOwner` is `add_auto_lock_owner`, `removeAutoLockOwner` is
--     `remove_auto_lock_owner`, `LockWorktrees` is `lock_worktrees`), Worktree/Mutex.antt (the rounds of
--     `acquireMutex`), Worktree/Holder.antt (`observeMutexHolder`) and Worktree/Hidden.antt. Git, the file
--     system, the processes and the clock are parameters; Worktree/Fields.antt is strings.Fields as its
--     documentation describes it. Edits one after the other are in Worktree/Sequence.antt, two at once in
--     Worktree/Race.antt.
--   * internal/attach/attach.go: Attach/Resolve.antt. The prompt is a function in the request.
--
-- Bounds and fuel. The rounds of `acquireMutex` run on fuel, as the program bounds them only while no
-- holder looks stale; what is stated of it says how much fuel is enough. `deduplicateName` loops on
-- fuel, one more round than there are running containers; the names tried differ, so that one of them is
-- free within the fuel. `commonPathAncestor` climbs on fuel as long as the path, since a parent is
-- shorter. The loop of `ResolvePath` runs on fuel; it follows 40 links at most, so that it ends within a
-- bound that is stated. Decimal numerals are printed on fuel equal to the number. A selection is refused
-- from 2 ^ 63 on, as `strconv.Atoi` does. Strings are lists of bytes.
--
-- Not modelled: the first part of `runWith`, which dispatches on the command line, starting processes
-- and waiting for a runtime to answer, inspection of the runtimes' JSON, file-system probes, and the
-- diagnostic log but for what it shows of a selection and of a command line, since it takes no part in a
-- decision.
pub mod Base
pub mod Env
pub mod Host
pub mod Runtime
pub mod Cli
pub mod Zellij
pub mod Plan
pub mod Launch
pub mod Attach
pub mod Worktree
pub mod Layer
