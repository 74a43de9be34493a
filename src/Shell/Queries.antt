-- ===== src/Shell/Queries.antt =====
-- SearchShell and the reading of logs and of the command timeline of internal/remote/shell.go. The log
-- and the decoded records of the timeline are arguments.
pub mod Matches
use xrunner.Base.{
  Bool, List, Option, Text, [], codes, drop, eqb, false, if◌then◌else◌, is_empty, is_none, leb,
  length, ltb, nat_eq, none, not, some, suc, take, text_eq, trim_space, true, zero, ℕ, ◌&&◌, ◌*◌,
  ◌++◌, ◌+◌, ◌-◌, ◌==◌, ◌||◌, ◌∷◌,
}
use xrunner.Grpc.{Result, err, invalid_argument, ok}
use xrunner.Session.Delimited.RoundTrip.{bound}
use xrunner.Shell.Acks.{validate_shell_name}
use xrunner.Shell.Bytes.{join, split}
use xrunner.Shell.Search.{Hit, search_log_range}
use Prim.Native.Nat.{max, min}

pub record ShellCommandRecord : Type 0 where
  pub command_id : Text
  pub begin_offset : ℕ
  pub end_offset : ℕ
  pub started_at : Option ℕ

pub record ShellSearchRequest : Type 0 where
  pub name : Text
  pub query : List ℕ
  pub start_offset : ℕ
  pub end_offset : ℕ
  pub command_id : Text
  pub start_time : Option ℕ
  pub end_time : Option ℕ
  pub max_matches : ℕ
  pub context_bytes : ℕ

-- A limit of a request: the default for 0, and at most the bound.
abbrev pub limit_of : ℕ → ℕ → ℕ → ℕ
limit_of default bound zero = default
limit_of default bound (suc n) = min bound (suc n)

abbrev pub before : Option ℕ → Option ℕ → Bool
before none t = false
before (some a) none = false
before (some a) (some b) = ltb a b

abbrev pub allows : ShellSearchRequest → Text → ShellCommandRecord → Bool
allows req cid r =
    (is_empty cid || r.command_id == cid)
    && (not (before r.started_at req.start_time) && not (before req.end_time r.started_at))

abbrev pub allowed : ShellSearchRequest → Text → List ShellCommandRecord → List ShellCommandRecord
allowed req cid [] = []
allowed req cid (r ∷ rs) =
    let rest = allowed req cid rs in if allows req cid r then r ∷ rest else rest

-- readLastCommandRecords, behind the decoding
unfoldable pub last_records : ℕ → List ShellCommandRecord → List ShellCommandRecord
last_records limit all =
    if eqb limit 0 || leb (length all) limit then all else drop (length all - limit) all

abbrev pub Match : Type 0
Match = Text × Hit

abbrev pub named_hits : Text → List Hit → List Match
named_hits cid [] = []
named_hits cid (h ∷ hs) = (cid, h) ∷ named_hits cid hs

-- The log's end, as the request narrows it, and its start.
abbrev pub search_end : ShellSearchRequest → ℕ → ℕ
search_end req size =
    if eqb req.end_offset 0 || ltb size req.end_offset then size else req.end_offset

abbrev pub search_start : ShellSearchRequest → ℕ → ℕ
search_start req size = min req.start_offset (search_end req size)

module _ (file : List ℕ) (query : List ℕ) (start : ℕ) (end : ℕ) (context_bytes : ℕ) where
  abbrev pub record_hits : Text → List Hit → ℕ → (ℕ → List Match) → List Match
  record_hits cid hits room again =
      named_hits cid hits ++ (if leb room (length hits) then [] else again (room - length hits))

  abbrev pub record_turn : Bool → ShellCommandRecord → ℕ → (ℕ → List Match) → List Match
  record_turn true r room again = again room
  record_turn false r room again =
      record_hits r.command_id
        (search_log_range file query (max start r.begin_offset) (min end r.end_offset) context_bytes
          room)
        room again

  -- for _, r := range allowed
  unfoldable pub search_records : List ShellCommandRecord → ℕ → List Match
  unfolding search_log_range
  search_records [] room = []
  search_records (r ∷ rs) room =
      record_turn (leb (min end r.end_offset) (max start r.begin_offset)) r room (search_records rs)

  -- No record is allowed: the whole range is searched.
  unfoldable pub search_allowed : List ShellCommandRecord → ℕ → List Match
  unfolding search_records
  search_allowed [] room = named_hits [] (search_log_range file query start end context_bytes room)
  search_allowed (r ∷ rs) room = search_records (r ∷ rs) room

abbrev pub narrowed : ShellSearchRequest → Text → Bool
narrowed req cid =
    not (is_empty cid) || (not (is_none req.start_time) || not (is_none req.end_time))

abbrev pub no_command : Text → List ShellCommandRecord → Bool
no_command cid [] = not (is_empty cid)
no_command cid (r ∷ rs) = false

unfoldable pub search_matches : ShellSearchRequest → List ShellCommandRecord → List ℕ → List Match
unfolding search_allowed last_records trim_space
search_matches req all file =
    let cid = trim_space req.command_id in
    let picked = if narrowed req cid then allowed req cid (last_records 5000 all) else [] in
    if no_command cid picked
    then []
    else search_allowed file req.query (search_start req (length file))
        (search_end req (length file)) (limit_of 80 4096 req.context_bytes) picked
        (limit_of 50 500 req.max_matches)

abbrev pub search_named :
    Result Text → ShellSearchRequest → List ShellCommandRecord → List ℕ → Result (List Match × ℕ)
search_named (err code message) req all file = err code message
search_named (ok name) req all file =
    if is_empty req.query
    then err invalid_argument (codes "query is required")
    else ok (search_matches req all file, length file)

-- SearchShell
unfoldable pub search_shell :
    ShellSearchRequest → List ShellCommandRecord → List ℕ → Result (List Match × ℕ)
unfolding search_matches validate_shell_name
search_shell req all file = search_named (validate_shell_name req.name) req all file

-- ListShellCommands
abbrev pub commands_named :
    Result Text → ℕ → List ShellCommandRecord → Result (List ShellCommandRecord)
commands_named (err code message) limit all = err code message
commands_named (ok name) limit all = ok (last_records (limit_of 50 500 limit) all)

unfoldable pub list_shell_commands :
    Text → ℕ → List ShellCommandRecord → Result (List ShellCommandRecord)
unfolding last_records validate_shell_name
list_shell_commands name limit all = commands_named (validate_shell_name name) limit all

-- bytes.ReplaceAll(data, "\r\n", "\n")
unfoldable pub unix_lines : List ℕ → List ℕ
unix_lines [] = []
unix_lines (c ∷ []) = c ∷ []
unix_lines (c ∷ (d ∷ s)) =
    let rest = unix_lines (d ∷ s) in if eqb c 13 && eqb d 10 then rest else c ∷ rest

abbrev pub ends_line : List ℕ → Bool
ends_line [] = true
ends_line (c ∷ []) = eqb c 10
ends_line (c ∷ (d ∷ s)) = ends_line (d ∷ s)

abbrev pub end_line : List ℕ → List ℕ
end_line s = if ends_line s then s else s ++ 10 ∷ []

-- The last lines of what was read.
unfoldable pub last_lines : ℕ → List ℕ → List ℕ
unfolding split join
last_lines lines bytes =
    let parts = split bytes 10 in
    if eqb lines 0 || leb (length parts) (lines + 1)
    then bytes
    else end_line (join (drop (length parts - (lines + 1)) parts) 10)

-- tailFileLines, with an int argument that is not positive written as 0
unfoldable pub tail_file_lines : List ℕ → ℕ → ℕ → List ℕ
unfolding last_lines unix_lines
tail_file_lines file lines max_bytes =
    let bound = if eqb max_bytes 0 then 1024 * 1024 else max_bytes in
    last_lines lines (unix_lines (drop (length file - bound) file))

-- appendFileBounded: the file afterwards.
unfoldable pub append_file_bounded : List ℕ → List ℕ → ℕ → List ℕ
append_file_bounded file more max_bytes =
    if eqb max_bytes 0 then file else file ++ drop (length more - max_bytes) more

-- readLogRange
unfoldable pub read_log_range : List ℕ → ℕ → ℕ → List ℕ
read_log_range file start end = take (end - start) (drop start file)
