-- ===== src/Base/Runes.antt =====
-- Go's view of the bytes of a string as runes, and the bytes that a text takes (package unicode/utf8).
use xrunner.Base.Tests.{eqb, leb, ltb, if◌then◌else◌}
use xrunner.Base.Equality.{Text}
use xrunner.Base.Lists.{drop, length}
use Prim.Native.Nat.{ℕ, zero, suc, ◌+◌, ◌*◌, ◌%◌}
use mathlib.Core.Bool.{Bool, ◌&&◌}
use mathlib.Core.List.{List, [], ◌∷◌}

abbrev between : ℕ → ℕ → ℕ → Bool
between lo hi c = leb lo c && leb c hi

-- The bytes allowed behind a first byte.
abbrev second : ℕ → ℕ → Bool
second a b =
    if eqb a 0xe0
    then between 0xa0 0xbf b
    else if eqb a 0xed
    then between 0x80 0x9f b
    else if eqb a 0xf0
    then between 0x90 0xbf b
    else if eqb a 0xf4
    then between 0x80 0x8f b
    else between 0x80 0xbf b

-- The first rune of some bytes, and its width: what is not UTF-8 is U+FFFD and one byte wide.
abbrev decode_two : ℕ → List ℕ → ℕ × ℕ
decode_two a [] = (0xfffd, 1)
decode_two a (b ∷ s) =
    if between 0xc2 0xdf a && second a b then (a % 0x20 * 0x40 + b % 0x40, 2) else (0xfffd, 1)

abbrev decode_three : ℕ → List ℕ → ℕ × ℕ
decode_three a (b ∷ (c ∷ s)) =
    if between 0xe0 0xef a && (second a b && between 0x80 0xbf c)
    then ((a % 0x10 * 0x40 + b % 0x40) * 0x40 + c % 0x40, 3)
    else decode_two a (b ∷ (c ∷ s))
decode_three a s = decode_two a s

abbrev decode_four : ℕ → List ℕ → ℕ × ℕ
decode_four a (b ∷ (c ∷ (d ∷ s))) =
    if between 0xf0 0xf4 a && (second a b && (between 0x80 0xbf c && between 0x80 0xbf d))
    then (((a % 8 * 0x40 + b % 0x40) * 0x40 + c % 0x40) * 0x40 + d % 0x40, 4)
    else decode_three a (b ∷ (c ∷ (d ∷ s)))
decode_four a s = decode_three a s

abbrev decode_rune : ℕ → List ℕ → ℕ × ℕ
decode_rune a s = if ltb a 0x80 then (a, 1) else decode_four a s

-- A rune takes at least a byte, so the number of bytes is fuel enough.
unfoldable decode_fuel : ℕ → List ℕ → Text
decode_fuel zero s = []
decode_fuel (suc fuel) [] = []
decode_fuel (suc fuel) (a ∷ s) =
    let r = decode_rune a s in r.0 ∷ decode_fuel fuel (drop r.1 (a ∷ s))

unfoldable pub runes : List ℕ → Text
unfolding decode_fuel
runes s = decode_fuel (length s) s

abbrev rune_length : ℕ → ℕ
rune_length c = if ltb c 0x80 then 1 else if ltb c 0x800 then 2 else if ltb c 0x10000 then 3 else 4

-- len(s), of a Go string
unfoldable pub byte_length : Text → ℕ
byte_length [] = 0
byte_length (c ∷ s) = rune_length c + byte_length s
