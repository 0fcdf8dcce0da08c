-- ===== src/Attach/Tests.antt =====
-- Runs of the plain attach on concrete inputs.
use claude_contained.Attach.Resolve.{Request, resolve}
use claude_contained.Attach.Safe.{IsSafe, resolve-IsSafe}
use claude_contained.Base.{false, some}
use claude_contained.Base.{[], ◌∷◌}
use claude_contained.Base.{bytes}

-- The user picks the second of the containers with the prefix.
abbrev request : Request
request = record {
  name = [];
  shell = false;
  command = [];
  srt_disable = false;
  home = bytes "/h";
  env = [];
  running = bytes "aic-web" ∷ bytes "db" ∷ bytes "aic-api" ∷ [];
  prompt = some (λ text. some (bytes " 2\n"));
}

abbrev named_request : Request
named_request = record request { name = bytes "web" }

resolve-IsSafe_example : IsSafe request (resolve request).verdict
resolve-IsSafe_example = resolve-IsSafe request
