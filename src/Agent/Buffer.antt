-- ===== src/Agent/Buffer.antt =====
-- `limitedBuffer` of internal/remote/session_service.go: it keeps the first bytes of what is written.
use xrunner.Base.{
  Bool, Bool-cases, List, Text, [], ap, append-nil, append_assoc, arith, codes, false,
  if◌then◌else◌, inl, inr, leb, leb→le, length, length-append, length-take, ltb, ltb→lt, refl, suc,
  sym, take, take_all, true, zero, ℕ, ◌*◌, ◌++◌, ◌+◌, ◌-◌, ◌<◌, ◌∙◌, ◌∷◌, ◌≡◌, ◌≤◌,
}
use Prim.Native.Nat.{min}

pub record LimitedBuffer : Type 0 where
  pub max : ℕ
  pub n : ℕ
  pub truncated : Bool
  pub b : List ℕ

-- A max that is not positive is 0 here.
unfoldable pub new_limited_buffer : ℕ → LimitedBuffer
new_limited_buffer zero = record { max = 64 * 1024; n = 0; truncated = false; b = [] }
new_limited_buffer (suc max) = record { max = suc max; n = 0; truncated = false; b = [] }

unfoldable pub write : List ℕ → LimitedBuffer → LimitedBuffer
write p b =
    if leb b.max b.n
    then record b { truncated = true }
    else let remain = b.max - b.n in
      if ltb remain (length p)
      then record b { b = b.b ++ take remain p; n = b.n + remain; truncated = true }
      else record b { b = b.b ++ p; n = b.n + length p }

unfoldable pub to_string : LimitedBuffer → Text
to_string b = if b.truncated then b.b ++ codes "\n[truncated]\n" else b.b

unfoldable pub write_all : List (List ℕ) → LimitedBuffer → LimitedBuffer
unfolding write
write_all [] b = b
write_all (p ∷ ps) b = write_all ps (write p b)

abbrev pub concat : List (List ℕ) → List ℕ
concat [] = []
concat (p ∷ ps) = p ++ concat ps

-- The buffer for `m` bytes holds the first of `bytes`, and is marked if there were more.
pub record Holds (m : ℕ) (bytes : List ℕ) (b : LimitedBuffer) : Type 0 where
  pub capped : b.max ≡ m
  pub kept : b.b ≡ take b.max bytes
  pub counted : b.n ≡ length b.b
  pub marked : b.max < length bytes → b.truncated ≡ true
  pub unmarked : length bytes < b.max → b.truncated ≡ false

take-append-below :
    (k : ℕ) (xs ys : List ℕ) → length xs ≤ k → take k (xs ++ ys) ≡ xs ++ take (k - length xs) ys
take-append-below k [] ys h = let e : k - 0 ≡ k = omega arith in rw e
take-append-below zero (x ∷ xs) ys h = absurd (omega arith)
take-append-below (suc k) (x ∷ xs) ys h =
    let e : suc k - suc (length xs) ≡ k - length xs = omega arith in
    rw (e, take-append-below k xs ys (omega arith))

take-append-above : (k : ℕ) (xs ys : List ℕ) → k ≤ length xs → take k (xs ++ ys) ≡ take k xs
take-append-above zero xs ys h = refl
take-append-above (suc k) [] ys h = absurd (omega arith)
take-append-above (suc k) (x ∷ xs) ys h = rw (take-append-above k xs ys (omega arith))

write-Holds :
    (m : ℕ) (p bytes : List ℕ) (b : LimitedBuffer)
    → Holds m bytes b
    → Holds m (bytes ++ p) (write p b)
unfolding write
write-Holds m p bytes b h =
    let size = length-append bytes p in
    let count : b.n ≡ min b.max (length bytes) =
      h.counted ∙ ap length h.kept ∙ length-take b.max bytes in
    elim (Bool-cases (leb b.max b.n)) [
      | inl full ↦
          let over : b.max ≤ length bytes = omega (arith, count, leb→le b.max b.n full) in
          rw full record {
            capped = h.capped;
            kept = h.kept ∙ sym (take-append-above b.max bytes p over);
            counted = h.counted;
            marked = λ l. refl;
            unmarked = λ l. absurd (omega (arith, size));
          }
      | inr room ↦
          let below : b.n < b.max = ground (arith, room) in
          let fits : length bytes < b.max = omega (arith, count) in
          let same : length bytes ≡ b.n = omega (arith, count) in
          let whole : b.b ≡ bytes = h.kept ∙ take_all b.max bytes (omega arith) in
          let split : b.b ++ take (b.max - b.n) p ≡ take b.max (bytes ++ p) =
            ap (λ l. l ++ take (b.max - b.n) p) whole
            ∙ ap (λ k. bytes ++ take (b.max - k) p) (sym same)
            ∙ sym (take-append-below b.max bytes p (omega arith)) in
          elim (Bool-cases (ltb (b.max - b.n) (length p))) [
            | inl over ↦
                rw (room, over)
                  record {
                    capped = h.capped;
                    kept = split;
                    counted = omega (
                      arith,
                      ltb→lt (b.max - b.n) (length p) over,
                      h.counted,
                      length-append b.b (take (b.max - b.n) p),
                      length-take (b.max - b.n) p,
                    );
                    marked = λ l. refl;
                    unmarked =
                        λ l. absurd (omega (arith, size, ltb→lt (b.max - b.n) (length p) over));
                  }
            | inr under ↦
                let short : length p ≤ b.max - b.n = ground (arith, under) in
                rw (room, under)
                  record {
                    capped = h.capped;
                    kept = ap (λ l. b.b ++ l) (sym (take_all (b.max - b.n) p short)) ∙ split;
                    counted = omega (arith, h.counted, length-append b.b p);
                    marked = λ l. absurd (omega (arith, size));
                    unmarked = λ l. h.unmarked fits;
                  }
          ]
    ]

write_all-Holds :
    (m : ℕ) (ps : List (List ℕ)) (bytes : List ℕ) (b : LimitedBuffer)
    → Holds m bytes b
    → Holds m (bytes ++ concat ps) (write_all ps b)
unfolding write_all
write_all-Holds m [] bytes b h = rw (append-nil bytes) h
write_all-Holds m (p ∷ ps) bytes b h =
    rw (← append_assoc bytes p (concat ps))
      (write_all-Holds m ps (bytes ++ p) (write p b) (write-Holds m p bytes b h))

-- A buffer that was made for `max` bytes, 0 < `max`, holds the first `max` bytes of all that was
-- written, in whatever pieces; it is marked as truncated if more was written, and not marked if
-- less was.
pub limited_buffer_Holds :
    (max : ℕ) (ps : List (List ℕ))
    → 0 < max
    → Holds max (concat ps) (write_all ps (new_limited_buffer max))
unfolding new_limited_buffer
limited_buffer_Holds zero ps h = absurd (omega arith)
limited_buffer_Holds (suc max) ps h =
    write_all-Holds (suc max) ps [] (new_limited_buffer (suc max)) record {
      capped = refl;
      kept = refl;
      counted = refl;
      marked = λ l. absurd (omega arith);
      unmarked = λ l. refl;
    }
