-- ===== src/Shell/Keys/Typing.antt =====
-- What the arguments for tmux send-keys stand for, and what a shell reads from a quoted text.
use xrunner.Base.{
  Bool, Bool-cases, List, Option, Text, [], ap, append_assoc, arith, codes, eqb, eqb_iff, false,
  if◌then◌else◌, inl, inr, nat_eq, none, refl, some, sym, text_beq, text_eq, true, ℕ, ◌&&◌, ◌++◌,
  ◌==◌, ◌>>=◌, ◌||◌, ◌∙◌, ◌∷◌, ◌≡◌,
}
use xrunner.Shell.Keys.{
  Class, classify, dropped, escape_quotes, flush, key_step, keys_from, named, plain,
  shell_quote_single, split_tmux_keys,
}

-- The character of a key's name.
abbrev pub control_of : Text → Option ℕ
control_of key =
    if key == codes "C-m"
    then some 10
    else if key == codes "C-c"
    then some 3
    else if key == codes "C-d"
    then some 4
    else if key == codes "C-z"
    then some 26
    else if key == codes "C-l"
    then some 12
    else none

-- A line feed, ETX, EOT, SUB or a form feed.
abbrev pub has_name : ℕ → Bool
has_name c = eqb c 10 || (eqb c 3 || (eqb c 4 || (eqb c 26 || eqb c 12)))

abbrev pub names_key : Text → Bool
names_key [] = false
names_key (c ∷ t) = has_name c || names_key t

-- A literal text with the text of the arguments behind it. It is not empty, and has no character that
-- is sent by the name of a key.
abbrev pub after_literal : Text → Option Text → Option Text
after_literal [] rest = none
after_literal (c ∷ t) rest = if names_key (c ∷ t) then none else (rest >>= λ w. some ((c ∷ t) ++ w))

or_false : (a b : Bool) → (a || b) ≡ false → (a ≡ false) × (b ≡ false)
or_false a b h = ground arith

names_key-append :
    (s t : Text) → names_key s ≡ false → names_key t ≡ false → names_key (s ++ t) ≡ false
names_key-append [] t h k = k
names_key-append (c ∷ s) t h k =
    let (first, rest) = or_false (has_name c) (names_key s) h in
    rw (first, names_key-append s t rest k) refl

-- The text of a list of arguments: a pair `-l text` for a text, and the name of a key for its
-- character; `none` for any other list.
abbrev pub read_keys : List Text → Option Text
read_keys [] = some []
read_keys (a ∷ []) = control_of a >>= λ c. some (c ∷ [])
read_keys (a ∷ (t ∷ rest)) =
    let behind = read_keys rest in
    let next = read_keys (t ∷ rest) in
    if a == codes "-l"
    then after_literal t behind
    else (control_of a >>= λ c. next >>= λ w. some (c ∷ w))

-- The text without its carriage returns.
abbrev pub without_returns : Text → Text
without_returns [] = []
without_returns (c ∷ s) = if eqb c 13 then without_returns s else c ∷ without_returns s

-- The character of rune `r` is what its class is read as.
abbrev IsRead : ℕ → Class → Type 0
IsRead r dropped = eqb r 13 ≡ true
IsRead r (named key) =
    (eqb r 13 ≡ false) × ((key == codes "-l") ≡ false) × (control_of key ≡ some r)
IsRead r plain = (eqb r 13 ≡ false) × (has_name r ≡ false)

classify-IsRead : (r : ℕ) → IsRead r (classify r)
unfolding classify text_beq
classify-IsRead r = elim (Bool-cases (eqb r 13)) [
  | inl q ↦ rw q q
  | inr q ↦ rw q (elim (Bool-cases (eqb r 10)) [
    | inl e ↦ rw e (q, refl, ap some (sym ((eqb_iff r 10).0 e)))
    | inr e ↦ rw e (elim (Bool-cases (eqb r 3)) [
      | inl f ↦ rw f (q, refl, ap some (sym ((eqb_iff r 3).0 f)))
      | inr f ↦ rw f (elim (Bool-cases (eqb r 4)) [
        | inl g ↦ rw g (q, refl, ap some (sym ((eqb_iff r 4).0 g)))
        | inr g ↦ rw g (elim (Bool-cases (eqb r 26)) [
          | inl h ↦ rw h (q, refl, ap some (sym ((eqb_iff r 26).0 h)))
          | inr h ↦ rw h (elim (Bool-cases (eqb r 12)) [
            | inl i ↦ rw i (q, refl, ap some (sym ((eqb_iff r 12).0 i)))
            | inr i ↦ rw i (q, rw (e, f, g, h, i) refl)
          ])
        ])
      ])
    ])
  ])
]

read_keys-flush :
    (cur : Text) (out : List Text) (w : Text)
    → names_key cur ≡ false
    → read_keys out ≡ some w
    → read_keys (flush cur out) ≡ some (cur ++ w)
unfolding text_beq
read_keys-flush [] out w free h = h
read_keys-flush (c ∷ cur) out w free h = rw (free, h) refl

read_keys-named :
    (key : Text) (r : ℕ) (out : List Text) (w : Text)
    → (key == codes "-l") ≡ false
    → control_of key ≡ some r
    → read_keys out ≡ some w
    → read_keys (key ∷ out) ≡ some (r ∷ w)
read_keys-named key r [] w n k h = rw k (ap (λ o. o >>= λ v. some (r ∷ v)) h)
read_keys-named key r (t ∷ out) w n k h = rw (n, k, h) refl

key_step-read_keys :
    (k : Class) (cur : Text) (r : ℕ) (rs : Text)
    → IsRead r k
    → names_key cur ≡ false
    → ((c : Text)
        → names_key c ≡ false
        → read_keys (keys_from c rs) ≡ some (c ++ without_returns rs))
    → read_keys (key_step k cur r (λ c. keys_from c rs)) ≡ some (cur ++ without_returns (r ∷ rs))
key_step-read_keys dropped cur r rs q free ih = rw q (ih cur free)
key_step-read_keys (named key) cur r rs (q, n, k) free ih =
    let rest = read_keys-named key r (keys_from [] rs) (without_returns rs) n k (ih [] refl) in
    rw q (read_keys-flush cur (key ∷ keys_from [] rs) (r ∷ without_returns rs) free rest)
key_step-read_keys plain cur r rs (q, unnamed) free ih =
    let longer = names_key-append cur (r ∷ []) free (rw unnamed refl) in
    rw q (ih (cur ++ r ∷ []) longer ∙ ap some (append_assoc cur (r ∷ []) (without_returns rs)))

keys_from_lem :
    (cur text : Text)
    → names_key cur ≡ false
    → read_keys (keys_from cur text) ≡ some (cur ++ without_returns text)
unfolding keys_from
keys_from_lem cur [] free = read_keys-flush cur [] [] free refl
keys_from_lem cur (r ∷ rs) free =
    key_step-read_keys (classify r) cur r rs (classify-IsRead r) free λ c. keys_from_lem c rs

-- The arguments made for a text, read as pairs `-l text` and as names of keys, stand for the text
-- without its carriage returns; the text of a pair is not empty, and has no line feed, ETX, EOT, SUB or
-- form feed, which are sent by the names of their keys.
pub split_tmux_keys-read_keys :
    (text : Text) → read_keys (split_tmux_keys text) ≡ some (without_returns text)
unfolding split_tmux_keys
split_tmux_keys-read_keys text = keys_from_lem [] text refl

-- The rest of a word that is made of quoted characters and escaped quotes only; `quoted` is whether the
-- reader is inside of single quotes, where all but a quote stands for itself. A character outside of
-- quotes, such as a blank, `;` or `$`, is refused, and so is an unfinished word.
abbrev pub sh_word : Bool → Text → Option Text
sh_word true [] = none
sh_word false [] = some []
sh_word true (c ∷ s) = if eqb c 39 then sh_word false s else (sh_word true s >>= λ w. some (c ∷ w))
sh_word false (c ∷ []) = none
sh_word false (c ∷ (d ∷ s)) =
    if eqb c 39
    then sh_word true (d ∷ s)
    else if eqb c 92 && eqb d 39
    then (sh_word false s >>= λ w. some (d ∷ w))
    else none

-- A word has at least one character, if only of quotes.
abbrev pub sh_reads : Text → Option Text
sh_reads [] = none
sh_reads (c ∷ s) = sh_word false (c ∷ s)

opening_quote : (t w : Text) → sh_word true t ≡ some w → sh_word false (39 ∷ t) ≡ some w
opening_quote [] w h = cc
opening_quote (c ∷ t) w h = h

sh_word-escape_quotes : (s : Text) → sh_word true (escape_quotes s ++ 39 ∷ []) ≡ some s
unfolding escape_quotes
sh_word-escape_quotes [] = refl
sh_word-escape_quotes (c ∷ s) = elim (Bool-cases (eqb c 39)) [
  | inl q ↦ rw q (
      ap (λ o. o >>= λ w. some (39 ∷ w))
        (opening_quote (escape_quotes s ++ 39 ∷ []) s (sh_word-escape_quotes s))
      ∙ ap (λ d. some (d ∷ s)) (sym ((eqb_iff c 39).0 q)))
  | inr q ↦ rw q (rw (q, sh_word-escape_quotes s) refl)
]

-- The quoted form of any text is a shell word in which no character stands bare, and the shell reads
-- it as that text.
pub shell_quote_single_round : (s : Text) → sh_reads (shell_quote_single s) ≡ some s
unfolding shell_quote_single
shell_quote_single_round [] = refl
shell_quote_single_round (c ∷ s) =
    opening_quote (escape_quotes (c ∷ s) ++ 39 ∷ []) (c ∷ s) (sh_word-escape_quotes (c ∷ s))
