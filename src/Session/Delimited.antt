-- ===== src/Session/Delimited.antt =====
-- Records behind their length as a varint: the functions of Go's encoding/binary that the store
-- uses, and readDelimited and writeDelimited of internal/remote/sessionstore/store.go.
pub mod RoundTrip
use xrunner.Base.{
  List, [], drop, eqb, if◌then◌else◌, length, ltb, suc, take, zero, ℕ, ◌%◌, ◌*◌, ◌++◌, ◌+◌, ◌-◌,
  ◌/◌, ◌∷◌,
}

-- What a read leaves: a value and the rest of the file, io.EOF, or another error.
pub data Read {ℓ} (A : Type ℓ) : Type ℓ where
  got : A → List ℕ → Read A
  at_end : Read A
  failed_read : Read A

-- binary.PutUvarint; 10 bytes are enough for 64 bits.
unfoldable pub put_uvarint_fuel : ℕ → ℕ → List ℕ
put_uvarint_fuel zero n = []
put_uvarint_fuel (suc f) n =
    let high = put_uvarint_fuel f (n / 128) in if ltb n 128 then n ∷ [] else (n % 128 + 128) ∷ high

unfoldable pub put_uvarint : ℕ → List ℕ
unfolding put_uvarint_fuel
put_uvarint n = put_uvarint_fuel 10 n

-- io.EOF in the middle of a number is io.ErrUnexpectedEOF.
abbrev pub and_low : ℕ → Read ℕ → Read ℕ
and_low b (got high rest) = got (b - 128 + 128 * high) rest
and_low b at_end = failed_read
and_low b failed_read = failed_read

-- The tenth byte holds only the last of the 64 bits.
abbrev pub last_byte : ℕ → ℕ → List ℕ → Read ℕ
last_byte zero b bs = if ltb 1 b then failed_read else got b bs
last_byte (suc f) b bs = got b bs

-- binary.ReadUvarint
unfoldable pub read_uvarint_fuel : ℕ → List ℕ → Read ℕ
read_uvarint_fuel zero bs = failed_read
read_uvarint_fuel (suc f) [] = at_end
read_uvarint_fuel (suc f) (b ∷ bs) =
    let high = read_uvarint_fuel f bs in if ltb b 128 then last_byte f b bs else and_low b high

unfoldable pub read_uvarint : List ℕ → Read ℕ
unfolding read_uvarint_fuel
read_uvarint bs = read_uvarint_fuel 10 bs

abbrev pub max_record : ℕ
max_record = 64 * 1024 * 1024

-- io.ReadFull of `l > 0` bytes: io.EOF if there is no byte at all.
abbrev pub read_full : ℕ → List ℕ → Read (List ℕ)
read_full l [] = at_end
read_full l (b ∷ bs) =
    if ltb (length (b ∷ bs)) l then failed_read else got (take l (b ∷ bs)) (drop l (b ∷ bs))

abbrev pub read_body : Read ℕ → Read (List ℕ)
read_body at_end = at_end
read_body failed_read = failed_read
read_body (got l rest) =
    if eqb l 0 then failed_read else if ltb max_record l then failed_read else read_full l rest

unfoldable pub read_delimited : List ℕ → Read (List ℕ)
unfolding read_uvarint
read_delimited file = read_body (read_uvarint file)

-- The bytes that writeDelimited hands to the buffered writer.
unfoldable pub write_delimited : List ℕ → List ℕ
unfolding put_uvarint
write_delimited msg = put_uvarint (length msg) ++ msg
