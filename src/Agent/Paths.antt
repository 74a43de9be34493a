-- ===== src/Agent/Paths.antt =====
-- resolveSessionWorkdir and the path checks of execWriteFileToolInternal, of
-- internal/remote/session_service.go, with the functions of Go's path/filepath on Unix that they call.
pub mod Within
pub mod Cleaning
use xrunner.Base.{
  Bool, List, Option, Text, [], codes, eqb, false, if◌then◌else◌, is_empty, nat_eq, none, not,
  reverse, some, text_eq, trim_space, true, ℕ, ◌&&◌, ◌++◌, ◌==◌, ◌||◌, ◌∷◌,
}
use xrunner.Shell.Bytes.{head_on}

abbrev pub slash : ℕ
slash = 47

-- What filepath.Clean makes of a path: whether it begins at the root, and its elements.
pub record FilePath : Type 0 where
  pub rooted : Bool
  pub elements : List Text

-- strings.Split(path, "/")
unfoldable pub split_path : Text → List Text
split_path [] = [] ∷ []
split_path (c ∷ s) = let rest = split_path s in if eqb c slash then [] ∷ rest else head_on c rest

abbrev pub is_rooted : Text → Bool
is_rooted [] = false
is_rooted (c ∷ s) = eqb c slash

abbrev pub dot : Text
dot = 46 ∷ []

abbrev pub dot_dot : Text
dot_dot = 46 ∷ 46 ∷ []

-- An element `..`, with the elements so far in reverse.
abbrev pub go_up : Bool → List Text → List Text
go_up true [] = []
go_up false [] = dot_dot ∷ []
go_up rooted (e ∷ out) = if e == dot_dot then dot_dot ∷ e ∷ out else out

abbrev pub clean_step : Bool → List Text → Text → List Text
clean_step rooted out e =
    if is_empty e || e == dot then out else if e == dot_dot then go_up rooted out else e ∷ out

unfoldable pub clean_elements : Bool → List Text → List Text → List Text
clean_elements rooted out [] = reverse out
clean_elements rooted out (e ∷ es) = clean_elements rooted (clean_step rooted out e) es

-- filepath.Clean
unfoldable pub clean : Text → FilePath
unfolding clean_elements split_path
clean path = record {
  rooted = is_rooted path;
  elements = clean_elements (is_rooted path) [] (split_path path);
}

unfoldable pub join_path : List Text → Text
join_path [] = []
join_path (e ∷ []) = e
join_path (e ∷ (f ∷ es)) = e ++ slash ∷ join_path (f ∷ es)

abbrev pub render_relative : List Text → Text
render_relative [] = dot
render_relative (e ∷ es) = join_path (e ∷ es)

-- The text of a cleaned path.
unfoldable pub render : FilePath → Text
unfolding join_path
render p = if p.rooted then slash ∷ join_path p.elements else render_relative p.elements

-- filepath.Join of two texts that are not empty
unfoldable pub join : Text → Text → FilePath
unfolding clean
join a b = clean (a ++ slash ∷ b)

-- The elements of the target behind those of the base: what is left of both.
unfoldable pub strip_common : List Text → List Text → List Text × List Text
strip_common [] ts = ([], ts)
strip_common (b ∷ bs) [] = (b ∷ bs, [])
strip_common (b ∷ bs) (t ∷ ts) =
    let rest = strip_common bs ts in if b == t then rest else (b ∷ bs, t ∷ ts)

abbrev pub ups : List Text → List Text
ups [] = []
ups (b ∷ bs) = dot_dot ∷ ups bs

abbrev pub rel_rest : List Text × List Text → Option Text
rel_rest ([], ts) = some (render_relative ts)
rel_rest (b ∷ bs, ts) = if b == dot_dot then none else some (join_path (dot_dot ∷ (ups bs ++ ts)))

-- filepath.Rel: `none` is an error.
unfoldable pub rel : FilePath → FilePath → Option Text
unfolding strip_common join_path
rel base target =
    if base.rooted
    then (if target.rooted then rel_rest (strip_common base.elements target.elements) else none)
    else if target.rooted
    then none
    else rel_rest (strip_common base.elements target.elements)

abbrev pub has_prefix : Text → Text → Bool
has_prefix s [] = true
has_prefix [] (p ∷ ps) = false
has_prefix (c ∷ s) (p ∷ ps) = eqb c p && has_prefix s ps

-- rel == ".." || strings.HasPrefix(rel, "../")
abbrev pub escapes : Text → Bool
escapes r = r == dot_dot || has_prefix r (46 ∷ 46 ∷ slash ∷ [])

abbrev pub or_root : Text → Text
or_root root = if is_empty root then slash ∷ [] else root

-- A path, or the message of the error.
pub data Resolved : Type 0 where
  resolved : FilePath → Resolved
  refused : Text → Resolved

abbrev pub checked : Text → Text → FilePath → Option Text → Resolved
checked invalid outside abs none = refused invalid
checked invalid outside abs (some r) = if escapes r then refused outside else resolved abs

-- A cwd that is not empty, under the cleaned root.
unfoldable pub resolve_under : FilePath → Text → Resolved
unfolding join rel render
resolve_under root cwd =
    if is_rooted cwd
    then refused (codes "cwd must be relative")
    else let abs = join (render root) cwd in
      checked (codes "invalid cwd") (codes "cwd escapes workspace root") abs (rel root abs)

-- resolveSessionWorkdir; the first argument is the session's workspace root, `none` if `store.Get`
-- fails.
unfoldable pub resolve_session_workdir : Option Text → Text → Resolved
unfolding clean resolve_under trim_space
resolve_session_workdir none cwd = refused (codes "session not found")
resolve_session_workdir (some workspace_root) cwd =
    let root = clean (or_root (trim_space workspace_root)) in
    if is_empty (trim_space cwd) then resolved root else resolve_under root cwd

unfoldable pub write_under : FilePath → Text → Resolved
unfolding join rel render
write_under root path =
    if is_rooted path
    then refused (codes "path must be relative")
    else let abs = join (render root) path in
      checked (codes "invalid path") (codes "path escapes workspace root") abs (rel root abs)

abbrev pub write_in : Option Text → Text → Resolved
write_in none path = refused (codes "session not found")
write_in (some workspace_root) path = write_under (clean (or_root workspace_root)) path

-- The file that execWriteFileToolInternal writes for the argument `path`, or its message.
unfoldable pub resolve_write_path : Option Text → Text → Resolved
unfolding clean write_under trim_space
resolve_write_path workspace_root path =
    let path = trim_space path in
    if is_empty path then refused (codes "path is required") else write_in workspace_root path
