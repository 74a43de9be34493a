-- ===== src/Agent/Os.antt =====
-- What the tools of internal/remote/session_service.go ask of the operating system and of other
-- packages, as an interface. `F` is the state of the world outside the daemon.
use xrunner.Base.{Bool, List, Option, Text, nat_eq, some, text_eq, ℕ, ◌++◌, ◌>>=◌}
use xrunner.Base.Dict.{Dict, lookup}
use xrunner.Agent.Bundle.{Bundle, Loaded}
use xrunner.Agent.Events.{Emit}
use xrunner.Agent.Paths.{FilePath}
use xrunner.Control.Types.{ℤ}
use xrunner.Session.Defs.{SessionMeta}

-- What cmd.Wait returns.
pub data Wait : Type 0 where
  success : Wait
  exit_error : ℤ → Wait
  wait_error : Text → Wait

-- A process that was started and has ended, with what was read of it: the reads in the order of
-- their events, each with its stream.
pub data Process : Type 0 where
  not_started : Text → Process
  ended : List (Bool × List ℕ) → Wait → Process  -- `true` is stderr

-- The arguments of the tools.
pub record ShellArgs : Type 0 where
  pub cmd : Text
  pub cwd : Text
  pub env : Dict Text Text
  pub pty : Bool

pub record WriteFileArgs : Type 0 where
  pub path : Text
  pub content : Text
  pub mode : ℕ  -- uint32

-- What json.Unmarshal returns: a value, or the message of the error.
pub data Parsed (A : Type 0) : Type 0 where
  parsed : A → Parsed A
  malformed : Text → Parsed A

pub data Created : Type 0 where
  created : FilePath → Created
  not_created : Text → Created

-- An operation that returns `some message` has failed.
pub record Os (F : Type 0) : Type 0 where
  pub new_string : F → Text × F  -- uuid.NewString
  pub unmarshal_shell : Text → Parsed ShellArgs
  pub unmarshal_write : Text → Parsed WriteFileArgs
  pub read_bundle : F → Text → Loaded  -- os.ReadFile and json.Unmarshal
  pub quote : Text → Text  -- the verb %q
  pub parse_time : Text → Option Text  -- time.Parse(time.RFC3339, …)
  pub run_pipes : Text → FilePath → Dict Text Text → F → Process × F  -- sh -lc, with pipes
  pub run_pty : Bool → Text → FilePath → Dict Text Text → F → Process × F  -- Setctty or not
  pub read_file : FilePath → F → Text  -- empty if it cannot be read
  pub mkdir_all : FilePath → F → Option Text × F
  pub create_temp : FilePath → F → Created × F
  pub chmod : FilePath → ℕ → F → Option Text × F
  pub write_string : FilePath → Text → F → Option Text × F
  pub sync : FilePath → F → Option Text × F
  pub close_file : FilePath → F → Option Text × F
  pub rename : FilePath → FilePath → F → Option Text × F
  pub remove : FilePath → F → F

-- The state of the sessionService that the tools use: what store.Get finds, the bundles, and the
-- calls that append and broadcast events, in order.
pub record Service (F : Type 0) : Type 0 where
  pub sessions : Dict Text SessionMeta
  pub bundles : Dict Text Bundle
  pub emitted : List Emit
  pub world : F

abbrev pub append_events : {F : Type 0} → List Emit → Service F → Service F
append_events evts s = record s { emitted = s.emitted ++ evts }

-- What a tool returns: its exit code, error message and output.
pub record Outcome : Type 0 where
  pub exit : ℤ
  pub err_msg : Text
  pub output : Text

abbrev pub outcome : ℤ → Text → Text → Outcome
outcome exit message output = record { exit = exit; err_msg = message; output = output }

abbrev pub root_of : {F : Type 0} → Text → Service F → Option Text
root_of id s = lookup id s.sessions >>= λ m. some m.workspace_root
