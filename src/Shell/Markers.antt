-- ===== src/Shell/Markers.antt =====
-- The markers that the shell hooks print around each command, `ESC ] 777 ; XR ; … BEL`, and how
-- internal/remote/shell.go cuts them out of a session's output.
pub mod Stripping
pub mod Flushing
use xrunner.Base.{
  Bool, List, Option, [], codes, drop, eqb, get_or, if◌then◌else◌, is_none, leb, length, ltb,
  nat_eq, none, not, some, suc, take, text_eq, zero, ℕ, ◌&&◌, ◌*◌, ◌++◌, ◌+◌, ◌-◌, ◌==◌, ◌^◌, ◌∷◌,
}
use xrunner.Control.Types.{negsuc, pos, ℤ}
use xrunner.Shell.Bytes.{index, index_byte, last_index, split}

pub data Kind : Type 0 where
  cmd_start cmd_end : Kind

pub record XrMarker : Type 0 where
  pub kind : Kind
  pub command_id : List ℕ
  pub command : List ℕ
  pub ts_ns : ℤ
  pub exit_code : ℤ
  pub start_offset : ℕ  -- int64
  pub end_offset : ℕ  -- int64

-- "\x1b]777;XR;"
abbrev pub xr_osc_prefix : List ℕ
xr_osc_prefix = 0x1b ∷ codes "]777;XR;"

unfoldable pub flush_before : List ℕ → Option ℕ → ℕ
unfolding index_byte
flush_before pending none = length pending
flush_before pending (some last) =
    if not (is_none (index_byte (drop last pending) 7))
    then length pending
    else if ltb 4096 (length pending - last)
    then length pending
    else last

unfoldable pub flushable_prefix_len : List ℕ → ℕ
unfolding flush_before last_index
flushable_prefix_len pending = flush_before pending (last_index pending xr_osc_prefix)

abbrev pub is_digit : ℕ → Bool
is_digit c = leb 48 c && leb c 57

unfoldable pub digits : List ℕ → ℕ → Option ℕ
digits [] n = some n
digits (c ∷ cs) n = let rest = digits cs (10 * n + (c - 48)) in if is_digit c then rest else none

abbrev pub within : ℕ → (ℕ → ℤ) → Option ℕ → Option ℤ
within bound sign none = none
within bound sign (some n) = if ltb n bound then some (sign n) else none

abbrev pub minus : ℕ → ℤ
minus zero = pos 0
minus (suc n) = negsuc n

unfoldable pub some_digits : List ℕ → Option ℕ
unfolding digits
some_digits [] = none
some_digits (c ∷ cs) = digits (c ∷ cs) 0

-- strconv.ParseInt(s, 10, 64), which strconv.Atoi agrees with on 64 bits: `none` is an error.
unfoldable pub parse_int : List ℕ → Option ℤ
unfolding some_digits
parse_int [] = none
parse_int (c ∷ cs) =
    if eqb c 45
    then within (2 ^ 63 + 1) minus (some_digits cs)
    else if eqb c 43
    then within (2 ^ 63) pos (some_digits cs)
    else within (2 ^ 63) pos (some_digits (c ∷ cs))

-- `now` is the clock in nanoseconds and `decode` is base64.StdEncoding.DecodeString.
module _ (now : ℤ) (decode : List ℕ → Option (List ℕ)) where
  abbrev pub marker : Kind → List ℕ → List ℕ → ℕ → ℕ → List ℕ → ℤ → XrMarker
  marker kind id ts start_off end_off command exit = record {
    kind = kind;
    command_id = id;
    command = command;
    ts_ns = get_or (parse_int ts) now;
    exit_code = exit;
    start_offset = start_off;
    end_offset = end_off;
  }

  unfoldable pub parse_parts : List (List ℕ) → ℕ → ℕ → Option XrMarker
  unfolding parse_int
  parse_parts (kind ∷ id ∷ ts ∷ last ∷ more) start_off end_off =
      if kind == codes "cmd_start"
      then some (marker Kind.cmd_start id ts start_off end_off (get_or (decode last) last) (pos 0))
      else if kind == codes "cmd_end"
      then some (marker Kind.cmd_end id ts start_off end_off [] (get_or (parse_int last) (pos 0)))
      else none
  parse_parts parts start_off end_off = none

  unfoldable pub parse_xr_marker_payload : List ℕ → ℕ → ℕ → Option XrMarker
  unfolding parse_parts split
  parse_xr_marker_payload payload start_off end_off =
      parse_parts (split payload 59) start_off end_off

  abbrev pub to_list : Option XrMarker → List XrMarker
  to_list none = []
  to_list (some m) = m ∷ []

  -- The loop from `i` on: `rest` is `b[i:]` and `off` is `baseOffset + i`. `again` goes on.
  unfoldable pub at_bel :
      (List ℕ → ℕ → List ℕ × List XrMarker) → Option ℕ → ℕ → List ℕ → ℕ → List ℕ × List XrMarker
  unfolding parse_xr_marker_payload
  at_bel again none j rest off = (take j rest ++ drop j rest, [])
  at_bel again (some k) j rest off =
      let payload = take (k - length xr_osc_prefix) (drop (j + length xr_osc_prefix) rest) in
      let (out, markers) = again (drop (j + k + 1) rest) (off + (j + k + 1)) in
      (
        take j rest ++ out,
        to_list (parse_xr_marker_payload payload (off + j) (off + (j + k + 1))) ++ markers,
      )

  unfoldable pub at_prefix :
      (List ℕ → ℕ → List ℕ × List XrMarker) → Option ℕ → List ℕ → ℕ → List ℕ × List XrMarker
  unfolding at_bel index_byte
  at_prefix again none rest off = (rest, [])
  at_prefix again (some j) rest off = at_bel again (index_byte (drop j rest) 7) j rest off

  unfoldable pub strip_from : ℕ → List ℕ → ℕ → List ℕ × List XrMarker
  unfolding at_prefix index
  strip_from zero rest off = ([], [])
  strip_from (suc fuel) rest off = at_prefix (strip_from fuel) (index rest xr_osc_prefix) rest off

  unfoldable pub strip_xr_markers : List ℕ → ℕ → List ℕ × List XrMarker
  unfolding strip_from
  strip_xr_markers b base_offset = strip_from (suc (length b)) b base_offset
