-- ===== src/Control/Mirror/Subjects.antt =====
-- The subjects and wildcards of jetstream.go, and the defaults of options.go.
use xrunner.Base.{Option, Text, [], codes, eqb, if◌then◌else◌, none, some, ℕ, ◌++◌, ◌∷◌}
use xrunner.Control.Types.{JobRef}

-- JetStreamOptions of options.go; the window is in nanoseconds.
pub record JetStreamOptions : Type 0 where
  pub url : Text
  pub user : Text
  pub password : Text
  pub events_prefix : Text
  pub jobs_stream : Text
  pub logs_stream : Text
  pub durable_prefix : Text
  pub jobs_max_bytes : ℕ
  pub logs_max_bytes : ℕ
  pub dupe_window : ℕ

abbrev text_or : Text → Text → Text
text_or d [] = d
text_or d (c ∷ t) = c ∷ t

abbrev nat_or : ℕ → ℕ → ℕ
nat_or d n = if eqb n 0 then d else n

unfoldable pub set_defaults : JetStreamOptions → JetStreamOptions
set_defaults o = record o {
  events_prefix = text_or (codes "events") o.events_prefix;
  jobs_stream = text_or (codes "xrunner_jobs") o.jobs_stream;
  logs_stream = text_or (codes "xrunner_logs") o.logs_stream;
  durable_prefix = text_or (codes "xrunner-replayer") o.durable_prefix;
  jobs_max_bytes = nat_or 10737418240 o.jobs_max_bytes;
  logs_max_bytes = nat_or 214748364800 o.logs_max_bytes;
  dupe_window = nat_or 120000000000 o.dupe_window;
}

abbrev subject : JetStreamOptions → Text → Option JobRef → Text
subject o kind none = o.events_prefix ++ (kind ++ codes "unknown.unknown")
subject o kind (some r) = o.events_prefix ++ (kind ++ (r.tenant_id ++ (codes "." ++ r.job_id)))

unfoldable pub job_subject : JetStreamOptions → Option JobRef → Text
job_subject o ref = subject o (codes ".jobs.") ref

unfoldable pub log_subject : JetStreamOptions → Option JobRef → Text
log_subject o ref = subject o (codes ".logs.") ref

unfoldable pub jobs_wildcard : JetStreamOptions → Text
jobs_wildcard o = o.events_prefix ++ codes ".jobs.*.*"

unfoldable pub logs_wildcard : JetStreamOptions → Text
logs_wildcard o = o.events_prefix ++ codes ".logs.*.*"
