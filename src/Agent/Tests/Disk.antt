-- ===== src/Agent/Tests/Disk.antt =====
-- A small operating system for the tests, and the theorem on edits at a concrete input.
use xrunner.Base.{
  Bool, Bool-cases, List, Option, Text, [], ap, arith, codes, false, get_or, if◌then◌else◌, inl,
  inr, nat_eq, none, not, refl, some, sym, text_beq_iff, text_eq, true, ◌&&◌, ◌++◌, ◌==◌, ◌↔◌, ◌∙◌,
  ◌∷◌, ◌≡◌, ◌≢◌,
}
use xrunner.Agent.Bundle.{Bundle, loaded}
use xrunner.Agent.Edit.{replace_file}
use xrunner.Agent.Edit.Whole.{FileLaws, Whole, replace_file-Whole}
use xrunner.Agent.Os.{Created, Os, created, ended, not_created, parsed, success}
use xrunner.Agent.Paths.{FilePath}

abbrev pub Files : Type 0
Files = FilePath → Option Text

unfoldable list_beq : List Text → List Text → Bool
list_beq [] [] = true
list_beq [] (y ∷ ys) = false
list_beq (x ∷ xs) [] = false
list_beq (x ∷ xs) (y ∷ ys) = x == y && list_beq xs ys

unfoldable bool_beq : Bool → Bool → Bool
bool_beq true b = b
bool_beq false b = not b

unfoldable pub same_path : FilePath → FilePath → Bool
unfolding list_beq bool_beq
same_path p q = bool_beq p.rooted q.rooted && list_beq p.elements q.elements

abbrev set_file : FilePath → Option Text → Files → Files
set_file p text w q = if same_path p q then text else w q

abbrev temp_path : FilePath
temp_path = record { rooted = true; elements = codes ".xrunner-edit-1" ∷ [] }

abbrev pub edited_path : FilePath
edited_path = record { rooted = true; elements = codes "a" ∷ [] }

abbrev create_in : Option Text → Files → Created × Files
create_in none w = (created temp_path, set_file temp_path (some []) w)
create_in (some t) w = (not_created (codes "file exists"), w)

abbrev write_to : FilePath → Text → Option Text → Files → Option Text × Files
write_to p s none w = (some (codes "no such file"), w)
write_to p s (some t) w = (none, set_file p (some (t ++ s)) w)

abbrev move : FilePath → FilePath → Option Text → Files → Option Text × Files
move a b none w = (some (codes "no such file"), w)
move a b (some t) w = (none, set_file b (some t) (set_file a none w))

abbrev pub shell_bundle : Bundle
shell_bundle = record {
  schema_version = codes "2025-12-15";
  bundle_version = codes "v2025-12-15";
  generated_at = codes "2025-12-15T00:00:00Z";
  tools =
      record {
        kind = codes "function";
        strict = none;
        function = record {
          name = codes "shell";
          description = codes "Run a command";
          parameters = codes "{}";
        };
      }
      ∷ [];
}

-- An operating system with one temporary file, a shell that prints `hi`, and one bundle.
abbrev pub small_os : Os Files
unfolding same_path
small_os = record {
  new_string = λ w. (codes "call", w);
  unmarshal_shell = λ s. parsed (record { cmd = s; cwd = []; env = []; pty = false });
  unmarshal_write = λ s. parsed (record { path = codes "a"; content = s; mode = 0 });
  read_bundle = λ w path. loaded shell_bundle;
  quote = λ s. s;
  parse_time = λ s. none;
  run_pipes = λ cmd dir env w. (ended ((false, codes "hi") ∷ []) success, w);
  run_pty = λ ctty cmd dir env w. (ended ((false, codes "hi") ∷ []) success, w);
  read_file = λ p w. get_or (w p) [];
  mkdir_all = λ d w. (none, w);
  create_temp = λ d w. create_in (w temp_path) w;
  chmod = λ t m w. (none, w);
  write_string = λ t s w. write_to t s (w t) w;
  sync = λ t w. (none, w);
  close_file = λ t w. (none, w);
  rename = λ a b w. move a b (w a) w;
  remove = λ t w. set_file t none w;
}

bool_beq_iff : (a b : Bool) → (bool_beq a b ≡ true) ↔ (a ≡ b)
unfolding bool_beq
bool_beq_iff true true = ((λ e. refl), (λ e. refl))
bool_beq_iff true false = ((λ e. sym e), (λ e. sym e))
bool_beq_iff false true = ((λ e. e), (λ e. e))
bool_beq_iff false false = ((λ e. refl), (λ e. refl))

list_beq_iff : (xs ys : List Text) → (list_beq xs ys ≡ true) ↔ (xs ≡ ys)
unfolding list_beq
list_beq_iff [] [] = ((λ e. refl), (λ e. refl))
list_beq_iff [] (y ∷ ys) = ((λ e. cc), (λ e. cc))
list_beq_iff (x ∷ xs) [] = ((λ e. cc), (λ e. cc))
list_beq_iff (x ∷ xs) (y ∷ ys) = (
  (λ e. ground (arith, text_beq_iff x y, list_beq_iff xs ys, e)),
  (λ e. ground (arith, text_beq_iff x y, list_beq_iff xs ys, e)),
)

abbrev of_parts : Bool → List Text → FilePath
of_parts rooted elements = record { rooted = rooted; elements = elements }

same_path-eq : (p q : FilePath) → same_path p q ≡ true → p ≡ q
unfolding same_path
same_path-eq p q e =
    let a : p.rooted ≡ q.rooted = (bool_beq_iff p.rooted q.rooted).0 (ground (arith, e)) in
    let b : p.elements ≡ q.elements = (list_beq_iff p.elements q.elements).0 (ground (arith, e)) in
    ap (λ r. of_parts r p.elements) a ∙ ap (λ l. of_parts q.rooted l) b

same_path_self : (p : FilePath) → same_path p p ≡ true
unfolding same_path
same_path_self p =
    rw ((bool_beq_iff p.rooted p.rooted).1 refl) ((list_beq_iff p.elements p.elements).1 refl)

abbrev content : FilePath → Files → Option Text
content p w = w p

set_file_self : (p : FilePath) (t : Option Text) (w : Files) → set_file p t w p ≡ t
set_file_self p t w = rw (same_path_self p) refl

set_file-other : (t p : FilePath) (s : Option Text) (w : Files) → p ≢ t → set_file t s w p ≡ w p
set_file-other t p s w apart = elim (Bool-cases (same_path t p)) [
  | inl same ↦ absurd (apart (sym (same_path-eq t p same)))
  | inr different ↦ rw different refl
]

abbrev made_path : Created → FilePath
made_path (created tmp) = tmp
made_path (not_created msg) = temp_path

create_in-fresh :
    (tmp : FilePath) (w : Files) (o : Option Text)
    → w temp_path ≡ o
    → (create_in o w).0 ≡ created tmp
    → w tmp ≡ none
create_in-fresh tmp w none e c = ap w (sym (ap made_path c)) ∙ e
create_in-fresh tmp w (some t) e c = cc

create_in-content :
    (p : FilePath) (old : Text) (w : Files) (o : Option Text)
    → w temp_path ≡ o
    → w p ≡ some old
    → (create_in o w).1 p ≡ some old
create_in-content p old w none e h =
    set_file-other temp_path p (some []) w (λ q. present (sym (sym e ∙ ap w (sym q) ∙ h))) ∙ h
  where
    present : some old ≢ none
    present h = cc
create_in-content p old w (some t) e h = h

create_in-new :
    (tmp : FilePath) (w : Files) (o : Option Text)
    → (create_in o w).0 ≡ created tmp
    → (create_in o w).1 tmp ≡ some []
create_in-new tmp w none c =
    ap (set_file temp_path (some []) w) (sym (ap made_path c)) ∙ set_file_self temp_path (some []) w
create_in-new tmp w (some t) c = cc

write_to-others :
    (t p : FilePath) (s : Text) (w : Files) (o : Option Text) → p ≢ t → (write_to t s o w).1 p ≡ w p
write_to-others t p s w none apart = refl
write_to-others t p s w (some old) apart = set_file-other t p (some (old ++ s)) w apart

write_to-content :
    (t : FilePath) (s old : Text) (w : Files) (o : Option Text)
    → (write_to t s o w).0 ≡ none
    → o ≡ some old
    → (write_to t s o w).1 t ≡ some (old ++ s)
write_to-content t s old w none done e = cc
write_to-content t s old w (some was) done e =
    set_file_self t (some (was ++ s)) w ∙ ap (λ o. some (get_or o [] ++ s)) e

move-target :
    (a b : FilePath) (w : Files) (o : Option Text)
    → (move a b o w).0 ≡ none
    → (move a b o w).1 b ≡ o
move-target a b w none done = cc
move-target a b w (some t) done = set_file_self b (some t) (set_file a none w)

move-failed :
    (a b p : FilePath) (msg : Text) (w : Files) (o : Option Text)
    → (move a b o w).0 ≡ some msg
    → (move a b o w).1 p ≡ w p
move-failed a b p msg w none failure = refl
move-failed a b p msg w (some t) failure = cc

small_os-FileLaws : FileLaws small_os content
unfolding small_os
small_os-FileLaws = record {
  mkdir_all-content = λ d p w. refl;
  create_temp-fresh = λ d tmp w e. create_in-fresh tmp w (w temp_path) refl e;
  create_temp-content = λ d p old w h. create_in-content p old w (w temp_path) refl h;
  create_temp-new = λ d tmp w e. create_in-new tmp w (w temp_path) e;
  chmod-content = λ t p m w. refl;
  write_string-others = λ t p s w apart. write_to-others t p s w (w t) apart;
  write_string-content = λ t s old w done e. write_to-content t s old w (w t) done e;
  sync-content = λ t p w. refl;
  close_file-content = λ t p w. refl;
  rename-target = λ a b w done. move-target a b w (w a) done;
  rename-failed = λ a b p msg w failure. move-failed a b p msg w (w a) failure;
  remove-others = λ t p w apart. set_file-other t p none w apart;
}

abbrev old_file : Files
unfolding same_path
old_file p = if same_path edited_path p then some (codes "old") else none

replace_file-Whole_example :
    Whole small_os content small_os-FileLaws edited_path
      (codes "old")
      (codes "new")
      (replace_file small_os edited_path 0 (codes "new") old_file)
unfolding old_file
replace_file-Whole_example =
    replace_file-Whole small_os content small_os-FileLaws edited_path 0 (codes "old") (codes "new")
      old_file (rw (same_path_self edited_path) refl)
