-- ===== src/Shell/Acks.antt =====
-- The acknowledged offsets of the clients, and the names of sessions, of internal/remote/shell.go.
use xrunner.Base.{
  Bool, Bool-cases, Option, Option-cases, Text, [], ap, arith, codes, eqb, false, get_or,
  if◌then◌else◌, inl, inr, is_empty, leb, length, ltb, nat_eq, refl, sym, text_beq_iff, text_eq,
  trim_space, true, ℕ, ◌&&◌, ◌==◌, ◌>>=◌, ◌||◌, ◌∙◌, ◌∷◌, ◌≡◌,
}
use xrunner.Base.Dict.{Dict, insert, lookup, lookup-insert}
use xrunner.Grpc.{Result, err, invalid_argument, ok}
use Prim.Native.Nat.{max}

-- The field `lastAckBy`: per session, per client.
abbrev pub Acks : Type 0
Acks = Dict Text (Dict Text ℕ)

unfoldable pub get_last_ack : Text → Text → Acks → Option ℕ
get_last_ack session client_id m = lookup session m >>= λ clients. lookup client_id clients

abbrev pub raise : Text → ℕ → Dict Text ℕ → Dict Text ℕ
raise client_id offset clients =
    if ltb (get_or (lookup client_id clients) 0) offset
    then insert client_id offset clients
    else clients

unfoldable pub set_last_ack : Text → Text → ℕ → Acks → Acks
set_last_ack session client_id offset m =
    if is_empty client_id
    then m
    else insert session (raise client_id offset (get_or (lookup session m) [])) m

abbrev pub is_name_start : ℕ → Bool
is_name_start c = (leb 97 c && leb c 122) || ((leb 65 c && leb c 90) || (leb 48 c && leb c 57))

abbrev pub is_name_char : ℕ → Bool
is_name_char c = is_name_start c || (eqb c 46 || (eqb c 95 || eqb c 45))

abbrev pub all_name_chars : Text → Bool
all_name_chars [] = true
all_name_chars (c ∷ s) = is_name_char c && all_name_chars s

-- The regular expression ^[a-zA-Z0-9][a-zA-Z0-9._-]{0,63}$
abbrev pub shell_name_re : Text → Bool
shell_name_re [] = false
shell_name_re (c ∷ s) = is_name_start c && (all_name_chars s && leb (length s) 63)

unfoldable pub valid_name : Text → Result Text
valid_name name =
    if is_empty name
    then err invalid_argument (codes "name is required")
    else if shell_name_re name
    then ok name
    else err invalid_argument (codes "invalid session name (allowed: [a-zA-Z0-9._-], max 64 chars)")

unfoldable pub validate_shell_name : Text → Result Text
unfolding valid_name trim_space
validate_shell_name name = valid_name (trim_space name)

-- The offset that a client has acknowledged, 0 if none.
abbrev pub acked : Text → Text → Acks → ℕ
acked session client_id m = get_or (get_last_ack session client_id m) 0

raise_lem :
    (client j : Text) (offset : ℕ) (clients : Dict Text ℕ)
    → get_or (lookup j (raise client offset clients)) 0 ≡ (
        if client == j
        then max (get_or (lookup j clients) 0) offset
        else get_or (lookup j clients) 0)
raise_lem client j offset clients =
    elim (Bool-cases (ltb (get_or (lookup client clients) 0) offset)) [
      | inl q ↦ rw q (
          ap (λ o. get_or o 0) (lookup-insert client j offset clients)
          ∙ ground (arith, q, text_beq_iff client j))
      | inr q ↦ rw q (ground (arith, q, text_beq_iff client j))
    ]

acked_clients : (i j : Text) (m : Acks) → acked i j m ≡ get_or (lookup j (get_or (lookup i m) [])) 0
unfolding get_last_ack lookup
acked_clients i j m = elim (Option-cases (lookup i m)) [
  | inl q ↦ rw q refl
  | inr (clients, q) ↦ rw q refl
]

-- An acknowledgement by a client with a name leaves the larger of the two offsets, so the offset
-- of a client never goes back, and changes no other client and no other session.
pub set_last_ack_monotone :
    (session client i j : Text) (offset : ℕ) (m : Acks)
    → is_empty client ≡ false
    → acked i j (set_last_ack session client offset m)
      ≡ (if session == i && client == j then max (acked i j m) offset else acked i j m)
unfolding set_last_ack
set_last_ack_monotone session client i j offset m h =
    let clients = get_or (lookup session m) [] in
    let raised = raise client offset clients in
    rw h (
      acked_clients i j (insert session raised m)
      ∙ ap (λ o. get_or (lookup j (get_or o [])) 0) (lookup-insert session i raised m)
      ∙ elim (Bool-cases (session == i)) [
        | inl q ↦
            let same : session ≡ i = (text_beq_iff session i).0 q in
            let a : acked i j m ≡ get_or (lookup j clients) 0 =
              acked_clients i j m
              ∙ ap (λ k. get_or (lookup j (get_or (lookup k m) [])) 0) (sym same) in
            rw (q, a) (raise_lem client j offset clients)
        | inr q ↦ rw q (sym (acked_clients i j m))
      ])
