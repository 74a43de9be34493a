-- ===== src/Worker/Server.antt =====
-- RunJob of internal/worker/server.go: every chunk is forwarded as it is collected, and the
-- response of Execute follows as the terminal message. It still carries all the chunks.
-- The two collectors forward outside of the lock that orders the chunks of the response, and a
-- Send that fails is only logged: `forwarded` is the chunks whose Send succeeded, in the order of
-- these calls, and `last` is what the Send of the terminal message returns.
pub mod Duplicates
use xrunner.Base.{List, Option, [], codes, false, map, none, some, true, ℕ, ◌++◌, ◌>>=◌, ◌∷◌}
use xrunner.Control.Store.Defs.{logs}
use xrunner.Control.Types.{
  JobAssignment, JobRef, JobState, LogChunk, RunJobResponse, pos, unspecified,
}
use xrunner.Grpc.{Result, err, invalid_argument, ok}
use xrunner.Worker.Runner.{Host, execute}
use xrunner.Worker.Sandbox.{Runner}

abbrev pub chunk_message : Option JobRef → LogChunk → RunJobResponse
chunk_message ref x = record {
  ref = ref;
  final_state = JobState.unspecified;
  exit_code = pos 0;
  status_message = codes "";
  started_at = none;
  completed_at = none;
  logs = x ∷ [];
  terminal = false;
}

-- The messages of a run that Execute answered with `resp`.
unfoldable pub run_messages : Option JobRef → List LogChunk → RunJobResponse → List RunJobResponse
run_messages ref forwarded resp =
    map (chunk_message ref) forwarded ++ record resp { terminal = true } ∷ []

-- What the handler sends, and the status that it ends with.
answer :
    Option JobRef
    → List LogChunk
    → Result (Unit {0})
    → Result RunJobResponse
    → List RunJobResponse × Result (Unit {0})
unfolding run_messages
answer ref forwarded last (ok resp) = (run_messages ref forwarded resp, last)
answer ref forwarded last (err c m) = (map (chunk_message ref) forwarded, err c m)

unfoldable pub run_job :
    Runner
    → Host
    → ℕ
    → Option JobAssignment
    → List LogChunk
    → Result (Unit {0})
    → Option (List RunJobResponse × Result (Unit {0}))
unfolding answer
run_job r host fuel none forwarded last =
    some ([], err invalid_argument (codes "assignment is required"))
run_job r host fuel (some a) forwarded last =
    execute r host fuel (some a) >>= λ res. some (answer a.ref forwarded last res)
