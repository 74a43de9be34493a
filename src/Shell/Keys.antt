-- ===== src/Shell/Keys.antt =====
-- How internal/remote/shell.go passes text to tmux and to a shell, and reads an exit code back.
pub mod Typing
use xrunner.Base.{
  List, Option, Text, [], codes, drop, eqb, if◌then◌else◌, length, ltb, none, some, ℕ, ◌++◌, ◌+◌,
  ◌>>=◌, ◌^◌, ◌∷◌,
}
use xrunner.Shell.Bytes.{last_index}
use xrunner.Shell.Markers.{digits, is_digit}

-- What a rune becomes: nothing, the name of a key, or a character of the literal text.
pub data Class : Type 0 where
  dropped plain : Class
  named : Text → Class

unfoldable pub classify : ℕ → Class
classify r =
    if eqb r 13
    then dropped
    else if eqb r 10
    then named (codes "C-m")
    else if eqb r 3
    then named (codes "C-c")
    else if eqb r 4
    then named (codes "C-d")
    else if eqb r 26
    then named (codes "C-z")
    else if eqb r 12
    then named (codes "C-l")
    else plain

-- The literal text that is waiting, in front of the arguments that follow.
abbrev pub flush : Text → List Text → List Text
flush [] out = out
flush (c ∷ cur) out = codes "-l" ∷ ((c ∷ cur) ∷ out)

-- One rune, with the literal text collected so far; `next` goes on.
abbrev pub key_step : Class → Text → ℕ → (Text → List Text) → List Text
key_step dropped cur r next = next cur
key_step (named key) cur r next = flush cur (key ∷ next [])
key_step plain cur r next = next (cur ++ r ∷ [])

-- The loop over the runes.
unfoldable pub keys_from : Text → Text → List Text
unfolding classify
keys_from cur [] = flush cur []
keys_from cur (r ∷ rs) = key_step (classify r) cur r (λ c. keys_from c rs)

unfoldable pub split_tmux_keys : Text → List Text
unfolding keys_from
split_tmux_keys text = keys_from [] text

-- strings.ReplaceAll(s, "'", `'\''`)
unfoldable pub escape_quotes : Text → Text
escape_quotes [] = []
escape_quotes (c ∷ s) =
    let rest = escape_quotes s in if eqb c 39 then 39 ∷ 92 ∷ 39 ∷ 39 ∷ rest else c ∷ rest

unfoldable pub shell_quote_single : Text → Text
unfolding escape_quotes
shell_quote_single [] = codes "''"
shell_quote_single (c ∷ s) = 39 ∷ (escape_quotes (c ∷ s) ++ 39 ∷ [])

unfoldable pub shell_escape_for_sh : Text → Text
shell_escape_for_sh [] = []
shell_escape_for_sh (c ∷ s) =
    let rest = shell_escape_for_sh s in if eqb c 39 then rest else c ∷ rest

unfoldable pub digit_prefix : List ℕ → List ℕ
digit_prefix [] = []
digit_prefix (c ∷ cs) = let rest = digit_prefix cs in if is_digit c then c ∷ rest else []

-- fmt.Sscanf(s, "%d", &code) for digits: a number that is no int leaves the 0.
abbrev pub scan_code : Option ℕ → ℕ
scan_code none = 0
scan_code (some n) = if ltb n (2 ^ 63) then n else 0

abbrev pub code_of : List ℕ → Option ℕ
code_of [] = none
code_of (c ∷ cs) = some (scan_code (digits (c ∷ cs) 0))

-- `none` is no marker.
unfoldable pub parse_end_marker : List ℕ → List ℕ → Option ℕ
unfolding last_index digit_prefix digits
parse_end_marker b end_marker = last_index b (end_marker ++ 58 ∷ []) >>= λ idx.
    code_of (digit_prefix (drop (idx + length end_marker + 1) b))
