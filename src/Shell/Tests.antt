-- ===== src/Shell/Tests.antt =====
-- The shell service's theorems at concrete inputs.
use xrunner.Base.{
  All, List, Option, [], arith, codes, drop, false, if◌then◌else◌, length, nat_eq, none, refl, some,
  take, text_beq, text_eq, true, ℕ, ◌&&◌, ◌++◌, ◌+◌, ◌==◌, ◌∷◌, ◌≡◌, ◌≢◌, ◌⊎◌,
}
use xrunner.Control.Types.{pos}
use xrunner.Shell.Acks.{acked, set_last_ack, set_last_ack_monotone}
use xrunner.Shell.Attach.{Turn}
use xrunner.Shell.Bytes.{index, index_byte, split}
use xrunner.Shell.Keys.{shell_quote_single, split_tmux_keys}
use xrunner.Shell.Keys.Typing.{
  read_keys, sh_reads, shell_quote_single_round, split_tmux_keys-read_keys, without_returns,
}
use xrunner.Shell.Markers.{
  Kind, at_bel, at_prefix, digits, flushable_prefix_len, parse_int, parse_parts,
  parse_xr_marker_payload, some_digits, strip_from, strip_xr_markers, to_list, xr_osc_prefix,
}
use xrunner.Shell.Markers.Flushing.{Withheld, flushable_prefix_len_lem, partial_prefix_leaks}
use xrunner.Shell.Markers.Stripping.{InOrder, strip_xr_markers-InOrder, strip_xr_markers-frame}
use xrunner.Shell.Queries.{ShellSearchRequest, search_end, search_matches, search_start}
use xrunner.Shell.Queries.Matches.{AreMatches, search_matches-AreMatches}
use xrunner.Shell.Search.{scan, search_chunks, search_log_range}
use xrunner.Shell.Stream.{ArePieces, StartsAt, stream_shell, stream_shell-ArePieces}
use Prim.Native.Nat.{max}

abbrev plain_decode : List ℕ → Option (List ℕ)
plain_decode bytes = some bytes

abbrev payload_a : List ℕ
payload_a = codes "cmd_end;c1;5;0"

abbrev frame_a : List ℕ
frame_a = codes "hi" ++ ((xr_osc_prefix ++ payload_a) ++ 7 ∷ codes "done")

marked_frame : strip_xr_markers (pos 0) plain_decode frame_a 100 ≡ (
  codes "hidone",
  record {
    kind = Kind.cmd_end;
    command_id = codes "c1";
    command = [];
    ts_ns = pos 5;
    exit_code = pos 0;
    start_offset = 102;
    end_offset = 126;
  }
      ∷ [],
)
unfolding strip_xr_markers strip_from at_prefix at_bel index index_byte parse_xr_marker_payload
    parse_parts parse_int some_digits digits split text_beq
marked_frame = refl

strip_xr_markers-InOrder_example :
    InOrder 100 (strip_xr_markers (pos 0) plain_decode frame_a 100).1 (100 + length frame_a)
strip_xr_markers-InOrder_example = strip_xr_markers-InOrder (pos 0) plain_decode frame_a 100

payload_plain : All (λ c. c ≢ 7) payload_a
payload_plain = ground arith

strip_xr_markers-frame_example :
    let next = strip_xr_markers (pos 0) plain_decode (codes "done") 126 in
    strip_xr_markers (pos 0) plain_decode frame_a 100 ≡ (
      codes "hi" ++ next.0,
      to_list (pos 0) plain_decode (parse_xr_marker_payload (pos 0) plain_decode payload_a 102 126)
          ++ next.1,
    )
strip_xr_markers-frame_example =
    strip_xr_markers-frame (pos 0) plain_decode (codes "hi") payload_a (codes "done") 100
      (omega arith, (omega arith, tt)) payload_plain

flushable_prefix_len_lem_example :
    (flushable_prefix_len frame_a ≡ length frame_a)
    ⊎ Withheld frame_a (flushable_prefix_len frame_a)
flushable_prefix_len_lem_example = flushable_prefix_len_lem frame_a

partial_prefix_leaks_example :
    let pending = codes "hi" ++ take 4 xr_osc_prefix in
    (flushable_prefix_len pending ≡ length pending)
    × (strip_xr_markers (pos 0) plain_decode pending 100 ≡ (pending, []))
partial_prefix_leaks_example =
    partial_prefix_leaks (pos 0) plain_decode (codes "hi") 4 100 (omega arith, (omega arith, tt))
      (omega arith)

split_tmux_keys-read_keys_example :
    read_keys (split_tmux_keys (codes "ls\r\n")) ≡ some (without_returns (codes "ls\r\n"))
split_tmux_keys-read_keys_example = split_tmux_keys-read_keys (codes "ls\r\n")

shell_quote_single_round_example :
    sh_reads (shell_quote_single (codes "it's")) ≡ some (codes "it's")
shell_quote_single_round_example = shell_quote_single_round (codes "it's")

bare_refused : sh_reads (codes "a; rm -rf $x") ≡ none
bare_refused = refl

set_last_ack_monotone_example :
    acked (codes "s") (codes "c") (set_last_ack (codes "s") (codes "c") 7 []) ≡ (
      if codes "s" == codes "s" && codes "c" == codes "c"
      then max (acked (codes "s") (codes "c") []) 7
      else acked (codes "s") (codes "c") [])
set_last_ack_monotone_example =
    set_last_ack_monotone (codes "s") (codes "c") (codes "s") (codes "c") 7 [] refl

two_found : length (search_log_range frame_a (codes "d") 0 30 80 5) ≡ 3
unfolding search_log_range search_chunks scan index
two_found = refl

abbrev search_request : ShellSearchRequest
search_request = record {
  name = codes "main";
  query = codes "d";
  start_offset = 0;
  end_offset = 0;
  command_id = [];
  start_time = none;
  end_time = none;
  max_matches = 0;
  context_bytes = 0;
}

search_matches-AreMatches_example :
    AreMatches frame_a
      (codes "d")
      (search_start search_request (length frame_a))
      (search_end search_request (length frame_a))
      500
      (search_matches search_request [] frame_a)
search_matches-AreMatches_example = search_matches-AreMatches search_request [] frame_a

abbrev attach_turns : List Turn
attach_turns =
    record { bytes = codes "ls\n"; due = false; max_chunk = 65536; ok = true }
    ∷ record { bytes = codes "a.txt\n"; due = true; max_chunk = 65536; ok = true }
    ∷ record { bytes = []; due = false; max_chunk = 65536; ok = true }
    ∷ []

stream_shell-ArePieces_example :
    (at : ℕ) × StartsAt 1 at
    × ArePieces 2 at (stream_shell 2 1 (codes "abcd")) (drop at (codes "abcd"))
stream_shell-ArePieces_example = stream_shell-ArePieces 2 1 (codes "abcd")

pieces_of_four : stream_shell 2 1 (codes "abcd") ≡ (1, codes "bc") ∷ (3, codes "d") ∷ []
unfolding stream_shell
pieces_of_four = refl
