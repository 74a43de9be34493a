-- ===== src/Shell/Run.antt =====
-- WriteShell, ResizeShell, TailShell, RunShell and CloseShell of internal/remote/shell.go, with
-- waitForRunEnd and the bounds of maybeExtractArtifacts. The calls of tmux are an interface.
use xrunner.Base.{
  Bool, List, Option, Text, [], codes, eqb, false, get_or, if◌then◌else◌, is_empty, leb, length,
  ltb, none, some, suc, trim_space, true, zero, ℕ, ◌%◌, ◌&&◌, ◌*◌, ◌++◌, ◌+◌, ◌-◌, ◌^◌, ◌||◌, ◌∷◌,
}
use xrunner.Control.Types.{int32, pos, ℤ}
use xrunner.Grpc.{Result, deadline_exceeded, err, invalid_argument, not_found, ok}
use xrunner.Shell.Acks.{validate_shell_name}
use xrunner.Shell.Keys.{parse_end_marker, shell_escape_for_sh}

abbrev pub Done : Type 0
Done = Result (Unit {0})

-- `F` is the state of tmux and of the files.
pub record Tmux (F : Type 0) : Type 0 where
  pub ensure_available : F → Done
  pub has_session : Text → F → Result Bool
  pub send_line : Text → List ℕ → F → Done × F
  pub send_bytes : Text → List ℕ → F → Done × F
  pub resize : Text → ℕ → ℕ → F → Done × F
  pub pipe_pane : Text → F → Done × F
  pub kill_session : Text → F → F
  pub remove_log : Text → F → F
  pub remove_records : Text → F → F  -- the timeline and the artifacts
  pub log : Text → F → Option (List ℕ)

abbrev pub then_do {ℓ κ} : {A : Type ℓ} {B : Type κ} → Result A → (A → Result B) → Result B
then_do (err code msg) k = err code msg
then_do (ok a) k = k a

abbrev pub or_absent : Bool → Done
or_absent true = ok tt
or_absent false = err not_found (codes "shell session not found")

-- What one read of the log gave: a line, or what is left of one, with the position of the file behind
-- the buffer afterwards.
abbrev pub Line : Type 0
Line = List ℕ × ℕ

-- waitForRunEnd: `none` where the time is over before the marker comes.
unfoldable pub wait_for_run_end : Text → List ℕ → List Line → Option (ℕ × ℕ)
unfolding parse_end_marker
wait_for_run_end end_marker buf [] = none
wait_for_run_end end_marker buf ((line, position) ∷ lines) =
    let more = buf ++ line in
    let kept = if ltb (2 * 1024 * 1024) (length more) then [] else more in
    let rest = wait_for_run_end end_marker kept lines in
    elim (parse_end_marker more end_marker) [ none ↦ rest | some code ↦ some (code, position) ]

abbrev pub marker_text : Text → Text → Text
marker_text kind id = codes "__XRUNNER_RUN_" ++ kind ++ codes "__" ++ id ++ codes "__"

-- The line that is typed for a command.
unfoldable pub wrapper : Text → Text → Text
unfolding shell_escape_for_sh
wrapper id cmd_str =
    codes "echo "
    ++ shell_escape_for_sh (marker_text (codes "BEGIN") id)
    ++ codes "; "
    ++ cmd_str
    ++ codes "; ec=$?; echo "
    ++ shell_escape_for_sh (marker_text (codes "END") id)
    ++ codes ":$ec"

-- In milliseconds.
unfoldable pub run_timeout : ℕ → ℕ
run_timeout zero = 10000
run_timeout (suc ms) = if ltb 600000 (suc ms) then 600000 else suc ms

-- The part of the log that is searched for artifacts, if any.
unfoldable pub artifact_range : ℕ → ℕ → Option (ℕ × ℕ)
artifact_range begin_offset end_offset =
    let size = end_offset - begin_offset in
    if leb end_offset begin_offset
    then none
    else if ltb (2 * 1024 * 1024) size
    then some (end_offset - 2 * 1024 * 1024, end_offset)
    else some (begin_offset, end_offset)

pub record ShellRunResponse : Type 0 where
  pub command_id : Text
  pub exit_code : ℤ
  pub begin_offset : ℕ
  pub end_offset : ℕ
  pub output_bytes : ℕ  -- of the record of the command, uint64

module _ {F : Type 0} (tmux : Tmux F) where
  -- The checks that the handlers begin with.
  unfoldable pub ready : Text → F → Result Text
  unfolding validate_shell_name
  ready name w = then_do (validate_shell_name name) λ name.
      then_do (tmux.ensure_available w)
        λ u. then_do (tmux.has_session name w) λ has. then_do (or_absent has) λ u. ok name

  abbrev pub on_ready {ℓ} : {A : Type ℓ} → Result Text → F → (Text → Result A × F) → Result A × F
  on_ready (err code msg) w k = (err code msg, w)
  on_ready (ok name) w k = k name

  unfoldable pub write_shell : Text → List ℕ → F → Done × F
  unfolding validate_shell_name ready
  write_shell name bytes w =
      if is_empty bytes
      then (then_do (validate_shell_name name) λ name. ok tt, w)
      else on_ready (ready name w) w λ name. tmux.send_bytes name bytes w

  unfoldable pub resize_shell : Text → ℕ → ℕ → F → Done × F
  unfolding ready
  resize_shell name cols rows w =
      on_ready (ready name w) w
        λ name. if eqb cols 0 || eqb rows 0 then (ok tt, w) else tmux.resize name cols rows w

  abbrev pub tail_lines : ℕ → ℕ
  tail_lines zero = 200
  tail_lines (suc n) = suc n

  abbrev pub tail_bytes : ℕ → ℕ
  tail_bytes zero = 1024 * 1024
  tail_bytes (suc n) = if ltb (8 * 1024 * 1024) (suc n) then 8 * 1024 * 1024 else suc n

  abbrev pub of_log : (List ℕ → List ℕ) → Option (List ℕ) → Result (List ℕ × ℕ)
  of_log tail none = err not_found (codes "shell log not found")
  of_log tail (some file) = ok (tail file, length file)

  abbrev pub with_pipe {ℓ} : {A : Type ℓ} → Done × F → (F → Result A × F) → Result A × F
  with_pipe (err code msg, w) k = (err code msg, w)
  with_pipe (ok u, w) k = k w

  -- `tail` is tailFileLines.
  unfoldable pub tail_shell : (List ℕ → ℕ → ℕ → List ℕ) → Text → ℕ → ℕ → F → Result (List ℕ × ℕ) × F
  unfolding ready
  tail_shell tail name lines max_bytes w = on_ready (ready name w) w λ name.
      with_pipe (tmux.pipe_pane name w) λ w.
        (of_log (λ file. tail file (tail_lines lines) (tail_bytes max_bytes)) (tmux.log name w), w)

  abbrev pub run_ended : Text → ℕ → Option (ℕ × ℕ) → Result ShellRunResponse
  run_ended id begin_offset none =
      err deadline_exceeded (codes "command timed out waiting for completion marker")
  run_ended id begin_offset (some (code, end_offset)) = ok (record {
    command_id = id;
    exit_code = int32 (pos code);
    begin_offset = begin_offset;
    end_offset = end_offset;
    output_bytes = (end_offset + 2 ^ 64 - begin_offset) % 2 ^ 64;
  })

  abbrev pub log_size : Text → F → ℕ
  log_size name w = length (get_or (tmux.log name w) [])

  -- `lines` are the reads of the log before the time is over, and `fresh` a UUID without dashes.
  unfoldable pub run_shell : List Line → Text → Text → Text → Text → F → Result ShellRunResponse × F
  unfolding ready wait_for_run_end wrapper trim_space validate_shell_name
  run_shell lines fresh name command command_id w =
      let cmd_str = trim_space command in
      let given = trim_space command_id in
      let id = if is_empty given then fresh else given in
      if is_empty cmd_str
      then (
        then_do (validate_shell_name name)
            λ name. err invalid_argument (codes "command is required"),
        w,
      )
      else on_ready (ready name w) w λ name. with_pipe (tmux.pipe_pane name w) λ w.
        let begin_offset = log_size name w in
        with_pipe (tmux.send_line name (wrapper id cmd_str) w) λ w.
          (run_ended id begin_offset (wait_for_run_end (marker_text (codes "END") id) [] lines), w)

  -- A session that is not there is closed already.
  unfoldable pub close_shell : Text → Bool → F → Done × F
  unfolding validate_shell_name
  close_shell name kill w =
      let checks = then_do (validate_shell_name name) λ name.
        then_do (tmux.ensure_available w)
          λ u. then_do (tmux.has_session name w) λ has. ok (name, has) in
      killed checks
    where
      killed : Result (Text × Bool) → Done × F
      killed (err code msg) = (err code msg, w)
      killed (ok (name, has)) =
          if has && kill
          then (ok tt, tmux.remove_records name (tmux.remove_log name (tmux.kill_session name w)))
          else (ok tt, w)
