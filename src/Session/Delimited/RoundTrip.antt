-- ===== src/Session/Delimited/RoundTrip.antt =====
-- What is written as a record is read back, and the reading goes on behind it.
use xrunner.Base.{
  Bool-cases, List, [], ap, append_assoc, arith, drop-append, eqb, false, inl, inr, length,
  length-append, ltb, refl, suc, take-append, zero, ℕ, ◌%◌, ◌*◌, ◌++◌, ◌+◌, ◌-◌, ◌/◌, ◌<◌, ◌^◌, ◌∙◌,
  ◌∷◌, ◌≡◌, ◌≤◌,
}
use xrunner.Session.Delimited.{
  at_end, got, max_record, put_uvarint, put_uvarint_fuel, read_body, read_delimited, read_full,
  read_uvarint, read_uvarint_fuel, write_delimited,
}

-- One more than the largest number of so many bytes, the tenth one cut to a bit.
abbrev pub bound : ℕ → ℕ
bound zero = 0
bound (suc zero) = 2
bound (suc (suc f)) = 128 * bound (suc f)

uvarint_fuel_round :
    (f n : ℕ) (rest : List ℕ)
    → n < bound (suc f)
    → read_uvarint_fuel (suc f) (put_uvarint_fuel (suc f) n ++ rest) ≡ got n rest
unfolding read_uvarint_fuel put_uvarint_fuel
uvarint_fuel_round zero n rest h = ground arith
uvarint_fuel_round (suc f) n rest h = elim (Bool-cases (ltb n 128)) [
  | inl q ↦ rw (q, q)
  | inr q ↦
      let ih = uvarint_fuel_round f (n / 128) rest (omega (arith, h)) in
      let big : ltb (n % 128 + 128) 128 ≡ false = ground arith in
      let sum : n % 128 + 128 - 128 + 128 * (n / 128) ≡ n = omega arith in rw q (rw (big, ih, sum))
]

pub uvarint_round :
    (n : ℕ) (rest : List ℕ) → n < 2 ^ 64 → read_uvarint (put_uvarint n ++ rest) ≡ got n rest
unfolding read_uvarint put_uvarint
uvarint_round n rest h = uvarint_fuel_round 9 n rest (omega (arith, h))

read_full_all :
    (c : ℕ) (msg rest : List ℕ)
    → read_full (suc (length msg)) ((c ∷ msg) ++ rest) ≡ got (c ∷ msg) rest
read_full_all c msg rest =
    let l = length-append (c ∷ msg) rest in
    let enough : ltb (length ((c ∷ msg) ++ rest)) (suc (length msg)) ≡ false = ground (arith, l) in
    rw (enough, take-append msg rest, drop-append msg rest)

-- A record of 1 byte to 64 MiB that is written in front of anything is read back.
pub delimited_round :
    (msg rest : List ℕ)
    → 0 < length msg
    → length msg ≤ max_record
    → read_delimited (write_delimited msg ++ rest) ≡ got msg rest
unfolding read_delimited write_delimited
delimited_round [] rest h k = absurd (omega arith)
delimited_round (c ∷ msg) rest h k =
    let n = suc (length msg) in
    let nonzero : eqb n 0 ≡ false = ground arith in
    let small : ltb max_record n ≡ false = ground arith in
    ap (λ file. read_body (read_uvarint file)) (append_assoc (put_uvarint n) (c ∷ msg) rest)
    ∙ ap read_body (uvarint_round n ((c ∷ msg) ++ rest) (omega (arith, k)))
    ∙ rw (nonzero, small) (read_full_all c msg rest)

pub read_delimited-nil : read_delimited [] ≡ at_end
unfolding read_delimited read_uvarint read_uvarint_fuel
read_delimited-nil = refl
