-- ===== src/Agent/Edit.antt =====
-- execWriteFileToolInternal and simpleTextDiff of internal/remote/session_service.go.
pub mod Whole
use xrunner.Base.{
  List, Option, Text, [], codes, if◌then◌else◌, is_empty, length, ltb, nat_eq, none, not, some, suc,
  text_eq, trim_space, zero, ℕ, ◌++◌, ◌-◌, ◌==◌, ◌||◌, ◌∷◌,
}
use xrunner.Agent.Events.{emit, file_diff, medium}
use xrunner.Agent.Exec.{default_json}
use xrunner.Agent.Os.{
  Created, Os, Outcome, Parsed, Service, WriteFileArgs, append_events, created, malformed,
  not_created, outcome, parsed, root_of,
}
use xrunner.Agent.Paths.{FilePath, Resolved, refused, resolve_write_path, resolved}
use xrunner.Control.Types.{pos}
use xrunner.Shell.Bytes.{split}
use Prim.Native.Nat.{max}

abbrev pub line_at : ℕ → List Text → Text
line_at i [] = []
line_at zero (l ∷ ls) = l
line_at (suc i) (l ∷ ls) = line_at i ls

-- One side of a changed line: `n` is the index of the last line of that side.
abbrev pub marked : ℕ → Text → ℕ → List Text → Text
marked sign l i lines =
    if not (is_empty l) || ltb i (length lines - 1) then sign ∷ l ++ codes "\n" else []

-- The turns of the loop from index `i`, as many as `k`.
unfoldable pub diff_lines : ℕ → ℕ → List Text → List Text → Text
diff_lines zero i lines_old lines_new = []
diff_lines (suc k) i lines_old lines_new =
    let o = line_at i lines_old in
    let n = line_at i lines_new in
    let rest = diff_lines k (suc i) lines_old lines_new in
    if o == n then rest else marked 45 o i lines_old ++ marked 43 n i lines_new ++ rest

unfoldable pub simple_text_diff : Text → Text → Text
unfolding diff_lines split
simple_text_diff old_text new_text =
    let lines_old = split old_text 10 in
    let lines_new = split new_text 10 in
    if old_text == new_text
    then []
    else codes "--- before\n+++ after\n"
      ++ diff_lines (max (length lines_old) (length lines_new)) 0 lines_old lines_new

-- filepath.Dir of a cleaned path
unfoldable pub parent_dir : FilePath → FilePath
parent_dir p = record p { elements = all_but_last p.elements }
  where
    all_but_last : List Text → List Text
    all_but_last [] = []
    all_but_last (e ∷ []) = []
    all_but_last (e ∷ (f ∷ es)) = e ∷ all_but_last (f ∷ es)

abbrev pub mode_or_default : ℕ → ℕ
mode_or_default zero = 420
mode_or_default (suc m) = suc m

module _ {F : Type 0} (os : Os F) where
  -- The next operation, if this one has succeeded.
  abbrev pub and_then : Option Text × F → (F → Option Text × F) → Option Text × F
  and_then (none, w) next = next w
  and_then (some msg, w) next = (some msg, w)

  -- An operation on the temporary file, which is closed if it fails.
  abbrev pub or_close : FilePath → Option Text × F → Option Text × F
  or_close tmp (none, w) = (none, w)
  or_close tmp (some msg, w) = (some msg, (os.close_file tmp w).1)

  -- From the temporary file to the target.
  unfoldable pub fill_and_rename : FilePath → FilePath → ℕ → Text → F → Option Text × F
  fill_and_rename tmp abs mode content w = and_then (or_close tmp (os.chmod tmp mode w)) λ w.
      and_then (or_close tmp (os.write_string tmp content w)) λ w.
        and_then (or_close tmp (os.sync tmp w))
          λ w. and_then (os.close_file tmp w) λ w. os.rename tmp abs w

  -- With the deferred os.Remove of the temporary file.
  unfoldable pub with_temp : FilePath → ℕ → Text → Created × F → Option Text × F
  unfolding fill_and_rename
  with_temp abs mode content (not_created msg, w) = (some msg, w)
  with_temp abs mode content (created tmp, w) =
      let (failure, w) = fill_and_rename tmp abs mode content w in (failure, os.remove tmp w)

  -- What execWriteFileToolInternal does to the file system; `some msg` is an error.
  unfoldable pub replace_file : FilePath → ℕ → Text → F → Option Text × F
  unfolding parent_dir
  replace_file abs mode content w =
      and_then (os.mkdir_all (parent_dir abs) w)
        λ w. with_temp abs (mode_or_default mode) content (os.create_temp (parent_dir abs) w)

  unfoldable pub edited :
      Text → WriteFileArgs → Text → Option Text × F → Service F → Outcome × Service F
  unfolding simple_text_diff trim_space
  edited id args old (some msg, w) s = (outcome (pos 1) msg [], record s { world = w })
  edited id args old (none, w) s =
      let diff = simple_text_diff old args.content in
      (
        outcome (pos 0) [] diff,
        append_events (emit id medium (file_diff (trim_space args.path) diff) ∷ [])
            (record s { world = w }),
      )

  unfoldable pub write_resolved : Text → WriteFileArgs → Resolved → Service F → Outcome × Service F
  unfolding replace_file
  write_resolved id args (refused msg) s = (outcome (pos 2) msg [], s)
  write_resolved id args (resolved abs) s =
      let old = os.read_file abs s.world in
      edited id args old (replace_file abs args.mode args.content s.world) s

  unfoldable pub write_parsed : Text → Parsed WriteFileArgs → Service F → Outcome × Service F
  unfolding resolve_write_path
  write_parsed id (malformed msg) s = (outcome (pos 2) (codes "invalid args_json: " ++ msg) [], s)
  write_parsed id (parsed args) s =
      write_resolved id args (resolve_write_path (root_of id s) args.path) s

  -- execWriteFileToolInternal
  unfoldable pub exec_write_file_tool : Text → Text → Service F → Outcome × Service F
  unfolding default_json
  exec_write_file_tool id args_json s =
      write_parsed id (os.unmarshal_write (default_json args_json (codes "{}"))) s
