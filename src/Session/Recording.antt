-- ===== src/Session/Recording.antt =====
-- What the files of a session hold, over a history of appended events.
use xrunner.Base.{
  All, Bool-cases, List, Option, Text, [], ap, append-nil, append_assoc, arith, drop, get_or, inl,
  inr, leb, leb→le, length, length-append, ltb, nat_eq, none, refl, some, suc, sym, text_eq, true,
  zero, ℕ, ◌++◌, ◌+◌, ◌-◌, ◌<◌, ◌>>=◌, ◌∙◌, ◌∷◌, ◌≡◌, ◌≤◌,
}
use xrunner.Base.Dict.{Dict, insert, lookup, lookup-insert_self}
use xrunner.Session.Defs.{
  AgentEvent, Dir, Session, Store, after_id, create, events_of, last_id, set_events,
}
use xrunner.Session.Delimited.{max_record, put_uvarint, write_delimited}

abbrev pub Ids : ℕ → List AgentEvent → Type 0
Ids n [] = Unit
Ids n (ev ∷ evs) = (ev.event_id ≡ n) × Ids (suc n) evs

pub Ids-append :
    (n : ℕ) (evs : List AgentEvent) (ev : AgentEvent)
    → Ids n evs
    → ev.event_id ≡ n + length evs
    → Ids n (evs ++ ev ∷ [])
Ids-append n [] ev h e = (omega (arith, e), tt)
Ids-append n (x ∷ evs) ev h e = (h.0, Ids-append (suc n) evs ev h.1 (omega (arith, e)))

drop_nil : {A : Type 0} (n : ℕ) → drop {A = A} n [] ≡ []
drop_nil zero = refl
drop_nil (suc n) = refl

pub events_of-insert :
    (id : Text) (bytes : List ℕ) (o : Option Dir) (root : Dict Text Dir)
    → get_or (lookup id (insert id (set_events bytes o) root) >>= λ d. some d.events) [] ≡ bytes
events_of-insert id bytes none root = rw (lookup-insert_self id (set_events bytes none) root)
events_of-insert id bytes (some d) root =
    rw (lookup-insert_self id (set_events bytes (some d)) root)

module _ (marshal : AgentEvent → List ℕ) (unmarshal : List ℕ → Option AgentEvent) where
  -- The bytes of the events' records.
  abbrev pub encode : List AgentEvent → List ℕ
  encode [] = []
  encode (ev ∷ evs) = write_delimited (marshal ev) ++ encode evs

  pub encode-append :
      (xs : List AgentEvent) (ev : AgentEvent)
      → encode (xs ++ ev ∷ []) ≡ encode xs ++ write_delimited (marshal ev)
  encode-append [] ev = append-nil (write_delimited (marshal ev))
  encode-append (x ∷ xs) ev =
      ap (λ r. write_delimited (marshal x) ++ r) (encode-append xs ev)
      ∙ sym (append_assoc (write_delimited (marshal x)) (encode xs) (write_delimited (marshal ev)))

  -- The message of the event has a byte, and no more than 64 MiB.
  abbrev pub Sized : AgentEvent → Type 0
  Sized ev = (0 < length (marshal ev)) × (length (marshal ev) ≤ max_record)

  pub write_delimited-length : (msg : List ℕ) → length msg ≤ length (write_delimited msg)
  unfolding write_delimited
  write_delimited-length msg = omega (arith, length-append (put_uvarint (length msg)) msg)

  pub last_id-Ids :
      (n : ℕ) (evs : List AgentEvent)
      → Ids (suc n) evs
      → last_id marshal unmarshal evs n ≡ n + length evs
  last_id-Ids n [] h = omega arith
  last_id-Ids n (ev ∷ evs) h =
      let newer : ltb n ev.event_id ≡ true = ground (arith, h.0) in
      rw newer (rw h.0 (last_id-Ids (suc n) evs h.1 ∙ omega arith))

  pub after_id-Ids :
      (n after : ℕ) (evs : List AgentEvent)
      → Ids (suc n) evs
      → after_id marshal unmarshal after evs ≡ drop (after - n) evs
  after_id-Ids n after [] h = sym (drop_nil (after - n))
  after_id-Ids n after (ev ∷ evs) h =
      let ih = after_id-Ids (suc n) after evs h.1 in
      elim (Bool-cases (leb ev.event_id after)) [
        | inl q ↦
            let big : ev.event_id ≤ after = leb→le ev.event_id after q in
            let z : after - n ≡ suc (after - suc n) = omega (arith, big, h.0) in rw q (rw z ih)
        | inr q ↦
            let z : after - n ≡ 0 = ground (arith, h.0) in
            let z' : after - suc n ≡ 0 = ground (arith, h.0) in
            rw q (rw z (ap (λ l. ev ∷ l) (rw z' at ih)))
      ]

  -- The session is loaded, and its file and buffer hold the events, numbered from 1 on.
  pub record Recorded (evs : List AgentEvent) (id : Text) (s : Store) (sess : Session)
      : Type 0 where
    pub loaded : lookup id s.sessions ≡ some sess
    pub kept : events_of id s ++ sess.buffered ≡ encode evs
    pub sized : All Sized evs
    pub ids : Ids 1 evs
    pub next : sess.next_id ≡ 1 + length evs

  -- A new session holds no events.
  pub create-Recorded :
      (uuid workspace_root tool_bundle_path : Text) (now : ℕ) (s : Store)
      → let (meta, t) = create marshal unmarshal uuid workspace_root tool_bundle_path now s in
        Recorded [] uuid t (record { meta = meta; next_id = 1; buffered = []; last_sync = now })
  unfolding create
  create-Recorded uuid workspace_root tool_bundle_path now s =
      let (meta, t) = create marshal unmarshal uuid workspace_root tool_bundle_path now s in
      record {
        loaded =
            lookup-insert_self uuid
              (record { meta = meta; next_id = 1; buffered = []; last_sync = now }) s.sessions;
        kept =
            append-nil (events_of uuid t)
            ∙ ap (λ o. get_or (o >>= λ d. some d.events) [])
                (lookup-insert_self uuid (record { meta = some meta; events = [] }) s.root);
        sized = tt;
        ids = tt;
        next = omega arith;
      }
