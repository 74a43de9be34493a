-- ===== src/Worker/Tests.antt =====
-- The worker's theorems at concrete inputs.
use xrunner.Base.{List, Option, Returns, Text, [], arith, codes, none, refl, some, true, ◌∷◌, ◌≡◌}
use xrunner.Control.Types.{SandboxSpec, SandboxType}
use xrunner.Worker.Collect.{AreLines, bytes_of, collect_stream, collect_stream-lossless}
use xrunner.Worker.Sandbox.{Runner, wrap_with_sandbox}
use xrunner.Worker.Sandbox.Termination.{wrap_with_sandbox_diverges, wrap_with_sandbox_total}

abbrev jail : SandboxSpec
jail = record {
  type = SandboxType.nsjail;
  nsjail_config = codes "";
  sandbox_bin = codes "";
  binds = [];
  workdir = codes "";
  log_path = codes "";
  extra_args = [];
}

abbrev plain_runner : Runner
plain_runner = record {
  workspace_root = codes "/tmp";
  allow_unsafe_fallback = true;
  default_sandbox = none;
}

abbrev jailing_runner : Runner
jailing_runner = record {
  workspace_root = codes "/tmp";
  allow_unsafe_fallback = true;
  default_sandbox = some jail;
}

abbrev nothing_installed : Text → Option Text
nothing_installed bin = none

abbrev true_command : List Text
true_command = codes "true" ∷ []

collect_stream-lossless_example :
    (bytes_of (collect_stream (codes "stdout") (λ n. n) (97 ∷ 10 ∷ 98 ∷ [])) ≡ 97 ∷ 10 ∷ 98 ∷ [])
    × AreLines (collect_stream (codes "stdout") (λ n. n) (97 ∷ 10 ∷ 98 ∷ []))
collect_stream-lossless_example =
    collect_stream-lossless (codes "stdout") (λ n. n) (97 ∷ 10 ∷ 98 ∷ [])

wrap_with_sandbox_total_example :
    Returns
      (λ w. Unit {0})
      (wrap_with_sandbox plain_runner nothing_installed true_command []
        (codes "/tmp/w")
        2
        (some jail))
wrap_with_sandbox_total_example =
    wrap_with_sandbox_total plain_runner nothing_installed true_command [] (codes "/tmp/w")
      (some jail) 2 (omega arith) refl

wrap_with_sandbox_diverges_example :
    wrap_with_sandbox jailing_runner nothing_installed true_command [] (codes "/tmp/w") 40 none
    ≡ none
wrap_with_sandbox_diverges_example =
    wrap_with_sandbox_diverges jailing_runner nothing_installed true_command [] (codes "/tmp/w") 40
      refl
