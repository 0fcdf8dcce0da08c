-- ===== src/Runtime/Tests.antt =====
-- Runs of the renderers, the choice of a runtime and the redaction on concrete inputs.
use claude_contained.Runtime.Spec.{Arg, RunSpec, env_arg, ssh_arg, mount_arg, name_arg}
use claude_contained.Runtime.Render.{darwin, linux, apple_render_run, docker_render_run}
use claude_contained.Runtime.ReadBack.{read_run, assignments, read_run-apple_render_run}
use claude_contained.Runtime.Selection.{
  Selection, apple, select, validate_selection, diagnostic_selection, diagnostic_selection-Agrees,
}
use claude_contained.Runtime.Redaction.{
  redact_diagnostic_argv, with_value, redact_diagnostic_argv-with_value,
}
use claude_contained.Base.{◌+◌, ◌≡◌, refl}
use claude_contained.Base.{true, false, ◌&&◌, leb, if◌then◌else◌}
use claude_contained.Base.{List, [], ◌∷◌, map}
use claude_contained.Base.{Bytes, bytes, same, has_prefix, cut}

abbrev sample_run : RunSpec
sample_run = record {
  args = ssh_arg ∷ env_arg (bytes "A") (bytes "-e") ∷ mount_arg (bytes "/p") (bytes "/p") true ∷ [];
  image = bytes "claude-contained:latest";
  command = bytes "npm" ∷ bytes "-e" ∷ [];
}

read_run-apple_render_run_example :
    read_run (apple_render_run sample_run)
    ≡ (assignments sample_run.args, sample_run.image ∷ sample_run.command)
unfolding has_prefix
read_run-apple_render_run_example = read_run-apple_render_run sample_run refl

abbrev all_lower : Bytes → Bytes
all_lower = map (λ c. if leb b'A' c && leb c b'Z' then c + 32 else c)

abbrev sample_selection : Selection
sample_selection = record {
  flag = [];
  env = bytes "Apple";
  argv0 = bytes "/usr/local/bin/claude-docked";
  platform = darwin;
}

select_sample : select all_lower sample_selection ≡ apple
unfolding select
select_sample = refl

diagnostic_selection-Agrees_example :
    ((diagnostic_selection all_lower sample_selection).valid ≡ true)
    × ((diagnostic_selection all_lower sample_selection).runtime ≡ bytes "apple")
    × (false ≡ false)
unfolding select validate_selection diagnostic_selection same
diagnostic_selection-Agrees_example = diagnostic_selection-Agrees all_lower sample_selection refl

abbrev secret_args : List Arg
secret_args =
    name_arg (bytes "-e")
    ∷ env_arg (bytes "TOKEN") (bytes "secret")
    ∷ mount_arg (bytes "/p") (bytes "/p") true
    ∷ []

redact_sample :
    redact_diagnostic_argv (bytes "run" ∷ bytes "-e" ∷ bytes "TOKEN=secret" ∷ bytes "-e" ∷ [])
    ≡ bytes "run" ∷ bytes "-e" ∷ bytes "TOKEN=<redacted>" ∷ bytes "-e" ∷ bytes "<redacted>" ∷ []
unfolding redact_diagnostic_argv cut
redact_sample = refl

redact_diagnostic_argv-with_value_example :
    (redact_diagnostic_argv (
        docker_render_run linux []
          (record { args = secret_args; image = bytes "img"; command = [] }))
      ≡ redact_diagnostic_argv (
          docker_render_run linux [] (record {
            args = map (with_value (λ k v. bytes "-e")) secret_args;
            image = bytes "img";
            command = [];
          })))
    × (redact_diagnostic_argv
          (apple_render_run (record { args = secret_args; image = bytes "img"; command = [] }))
        ≡ redact_diagnostic_argv (
            apple_render_run (record {
              args = map (with_value (λ k v. bytes "-e")) secret_args;
              image = bytes "img";
              command = [];
            })))
redact_diagnostic_argv-with_value_example =
    redact_diagnostic_argv-with_value (λ k v. bytes "-e") linux [] secret_args (bytes "img") [] refl
