-- ===== src/Control/Store/Sound.antt =====
-- When a store is sound, and the methods that send on channels or make them.
use xrunner.Base.{
  Bool-cases, List, Option, Returns, Returns-bind, Text, [], arith, eqb, get_or, if◌then◌else◌, inl,
  inr, nat_eq, none, refl, some, text_eq, ℕ, ◌++◌, ◌+◌, ◌<◌, ◌∷◌, ◌≡◌, ◌≤◌,
}
use xrunner.Base.Dict.{Dict, insert, lookup}
use xrunner.Control.Store.Channels.{broadcast}
use xrunner.Control.Store.Defs.{
  Mirror, Store, append_logs, append_numbered, broadcast_locked, bump_log_offset_locked,
  compound_key, empty, logs_of, number_chunks, put, subs_of, subscribe_logs,
}
use xrunner.Control.Store.Refs.{count_refs, count_refs-insert, refs, refs-delete, refs-insert}
use xrunner.Control.Store.Sending.{AllOpen, IsOpen, KeepsOpen, broadcast-KeepsOpen}
use xrunner.Control.Types.{Job, JobRef, LogChunk}

pub record IsSound (s : Store) : Type 0 where
  pub unique : (c : ℕ) → refs c s.log_subs ≤ 1
  pub live : (c : ℕ) → 0 < refs c s.log_subs → IsOpen (s.chans c)
  pub fresh : (c : ℕ) → 0 < refs c s.log_subs → c < s.next_chan

pub empty-IsSound : (js : Option Mirror) → IsSound (empty js)
unfolding empty refs
empty-IsSound js = record {
  unique = λ c. omega arith;
  live = λ c h. absurd (omega arith);
  fresh = λ c h. absurd (omega arith);
}

pub put-IsSound : (job : Option Job) (s : Store) → IsSound s → IsSound (put job s)
unfolding put
put-IsSound none s h = h
put-IsSound (some job) s h = record { unique = h.unique; live = h.live; fresh = h.fresh }

-- The registrations of one job are among those of all.
count_refs-le-refs :
    (c : ℕ) (key : Text) (m : Dict Text (Dict ℕ ℕ))
    → count_refs c (get_or (lookup key m) []) ≤ refs c m
count_refs-le-refs c key m = omega (arith, refs-delete c key m)

subs_of-AllOpen : (key : Text) (s : Store) → IsSound s → AllOpen (subs_of key s) s.chans
subs_of-AllOpen key s h d p = h.live d (omega (arith, count_refs-le-refs d key s.log_subs))

-- Nothing but the channels has changed.
abbrev pub OnlyChans : Store → Store → Type 0
OnlyChans s t = t ≡ record s { chans = t.chans }

pub broadcast_locked-IsSound :
    (key : Text) (xs : List LogChunk) (s : Store)
    → IsSound s
    → Returns (λ t. IsSound t × OnlyChans s t) (broadcast_locked key xs s)
unfolding broadcast_locked
broadcast_locked-IsSound key xs s h =
    Returns-bind (KeepsOpen s.chans) (λ t. IsSound t × OnlyChans s t)
      (broadcast (subs_of key s) xs s.chans) (λ k. some (record s { chans = k }))
      (broadcast-KeepsOpen (subs_of key s) xs s.chans (subs_of-AllOpen key s h))
      λ k p. (
        record s { chans = k },
        refl,
        (record { unique = h.unique; live = λ c q. p c (h.live c q); fresh = h.fresh }, refl),
      )

pub number_chunks-IsSound :
    (key : Text) (xs : List LogChunk) (s : Store) → IsSound s → IsSound (number_chunks key xs s).0
unfolding number_chunks
number_chunks-IsSound key [] s h = h
number_chunks-IsSound key (x ∷ xs) s h =
    number_chunks-IsSound key xs (bump_log_offset_locked key s).0
      (record { unique = h.unique; live = h.live; fresh = h.fresh })

-- The state of AppendLogs before the broadcast.
append_numbered-IsSound :
    (ref : JobRef) (xs : List LogChunk) (s : Store)
    → IsSound s
    → Returns IsSound (append_numbered ref xs s)
unfolding append_numbered
append_numbered-IsSound ref xs s h =
    let key = compound_key (some ref) in
    let t = (number_chunks key xs s).0 in
    let copied = (number_chunks key xs s).1 in
    let k : IsSound t = number_chunks-IsSound key xs s h in
    let u = record t { logs = insert key (logs_of key t ++ copied) t.logs } in
    Returns-bind (λ v. IsSound v × OnlyChans u v) IsSound (broadcast_locked key copied u) _
      (broadcast_locked-IsSound key copied u
        (record { unique = k.unique; live = k.live; fresh = k.fresh }))
      λ v p. (_, refl, record { unique = p.0.unique; live = p.0.live; fresh = p.0.fresh })

pub append_logs-IsSound :
    (ref : Option JobRef) (xs : List LogChunk) (s : Store)
    → IsSound s
    → Returns IsSound (append_logs ref xs s)
unfolding append_logs
append_logs-IsSound none xs s h = (s, refl, h)
append_logs-IsSound (some ref) [] s h = (s, refl, h)
append_logs-IsSound (some ref) (x ∷ xs) s h = append_numbered-IsSound ref (x ∷ xs) s h

-- The table of one job replaced by `v`.
refs-replace :
    (key : Text) (v : Dict ℕ ℕ) (s : Store) (d : ℕ)
    → refs d (insert key v s.log_subs) + count_refs d (subs_of key s)
      ≡ refs d s.log_subs + count_refs d v
refs-replace key v s d = refs-insert d key v s.log_subs

unused_chan : (s : Store) → IsSound s → refs s.next_chan s.log_subs ≡ 0
unused_chan s h = ground (arith, h.fresh s.next_chan)

pub subscribe_logs-IsSound :
    (ref : Option JobRef) (s : Store) → IsSound s → IsSound (subscribe_logs ref s).0
unfolding subscribe_logs
subscribe_logs-IsSound ref s h =
    let key = compound_key ref in
    let c = s.next_chan in
    let id = s.next_sub_id in
    let subs = subs_of key s in
    let grown : (d : ℕ)
        → refs d (insert key (insert id c subs) s.log_subs)
          ≤ refs d s.log_subs + (if eqb c d then 1 else 0) =
      λ d. omega (arith, refs-replace key (insert id c subs) s d, count_refs-insert d id c subs) in
    record {
      unique = λ d. ground (arith, grown d, h.unique d, unused_chan s h);
      live = λ d p. elim (Bool-cases (eqb c d)) [
        | inl e ↦ rw e tt
        | inr e ↦ rw e (h.live d (ground (arith, grown d)))
      ];
      fresh = λ d p. ground (arith, grown d, h.fresh d);
    }
