-- ===== src/Control/Store/Safety.antt =====
-- No method of the store panics: a channel is registered at most once, and while it is registered
-- it is open. Sending on a closed channel and closing one twice are therefore unreachable.
use xrunner.Base.{
  Option, Returns, Returns-bind, Text, [], ap, arith, eqb, get_or, if◌then◌else◌, nat_eq, none,
  refl, some, text_eq, ℕ, ◌+◌, ◌<◌, ◌∷◌, ◌≡◌, ◌≢◌, ◌≤◌,
}
use xrunner.Base.Dict.{Dict, delete, lookup}
use xrunner.Control.Store.Channels.{Heap, close, close_all}
use xrunner.Control.Store.Defs.{
  Store, close_log_streams, close_subs, compound_key, drop_empty, subs_of, unsubscribe_from,
  unsubscribe_key, unsubscribe_locked, unsubscribe_logs,
}
use xrunner.Control.Store.Refs.{
  count_refs, count_refs-delete, is_chan, refs, refs-delete, refs-insert,
}
use xrunner.Control.Store.Sending.{KeepsOthers, close_all-KeepsOthers, close_lem}
use xrunner.Control.Store.Sound.{IsSound}
use xrunner.Control.Types.{JobRef}

-- Nothing but the subscriptions and the channels has changed.
abbrev pub OnlySubs : Store → Store → Type 0
OnlySubs s t = t ≡ record s {
  log_subs = t.log_subs;
  next_sub_id = t.next_sub_id;
  chans = t.chans;
  next_chan = t.next_chan;
}

abbrev pub Kept : Store → Store → Type 0
Kept s t = IsSound t × OnlySubs s t

-- The tables shrink, and the channels that stay registered are left alone.
shrink-IsSound :
    (s : Store) (m : Dict Text (Dict ℕ ℕ)) (k : Heap)
    → IsSound s
    → ((d : ℕ) → refs d m ≤ refs d s.log_subs)
    → ((d : ℕ) → 0 < refs d m → k d ≡ s.chans d)
    → IsSound (record s { chans = k; log_subs = m })
shrink-IsSound s m k h less same = record {
  unique = λ d. omega (arith, less d, h.unique d);
  live = λ d p. rw (same d p) (h.live d (omega (arith, less d)));
  fresh = λ d p. h.fresh d (omega (arith, less d));
}

refs-drop_empty :
    (key : Text) (v : Dict ℕ ℕ) (m : Dict Text (Dict ℕ ℕ)) (d : ℕ)
    → refs d (drop_empty key v m) + count_refs d (get_or (lookup key m) [])
      ≤ refs d m + count_refs d v
refs-drop_empty key [] m d = omega (arith, refs-delete d key m)
refs-drop_empty key (x ∷ v) m d = omega (arith, refs-insert d key (x ∷ v) m)

unsubscribe_from-IsSound :
    (key : Text) (id : ℕ) (subs : Dict ℕ ℕ) (found : Option ℕ) (s : Store)
    → IsSound s
    → lookup id subs ≡ found
    → subs_of key s ≡ subs
    → Returns (Kept s) (unsubscribe_from key id subs found s)
unfolding unsubscribe_from
unsubscribe_from-IsSound key id subs none s h e f = (
  _,
  refl,
  (
    shrink-IsSound s _ s.chans h
        (λ d. omega (arith, refs-drop_empty key subs s.log_subs d, ap (count_refs d) f))
        (λ d p. refl),
    refl,
  ),
)
unsubscribe_from-IsSound key id subs (some c) s h e f =
    let less : (d : ℕ)
        → refs d (drop_empty key (delete id subs) s.log_subs) + (if eqb c d then 1 else 0)
          ≤ refs d s.log_subs =
      λ d. omega (
        arith,
        refs-drop_empty key (delete id subs) s.log_subs d,
        ap (count_refs d) f,
        count_refs-delete d id subs,
        ap (is_chan d) e,
      ) in
    Returns-bind (λ k. (d : ℕ) → c ≢ d → k d ≡ s.chans d) (Kept s) (close c s.chans) _
      (close_lem c s.chans (h.live c (ground (arith, less c))))
      λ k p. (
        _,
        refl,
        (
          shrink-IsSound s _ k h (λ d. omega (arith, less d))
              (λ d q. p d (λ c_d. ground (arith, less d, h.unique d))),
          refl,
        ),
      )

unsubscribe_key-IsSound :
    (key : Text) (id : ℕ) (subs : Option (Dict ℕ ℕ)) (s : Store)
    → IsSound s
    → lookup key s.log_subs ≡ subs
    → Returns (Kept s) (unsubscribe_key key id subs s)
unfolding unsubscribe_key
unsubscribe_key-IsSound key id none s h e = (s, refl, (h, refl))
unsubscribe_key-IsSound key id (some subs) s h e =
    unsubscribe_from-IsSound key id subs (lookup id subs) s h refl (rw e)

pub unsubscribe_logs-IsSound :
    (ref : Option JobRef) (id : ℕ) (s : Store)
    → IsSound s
    → Returns (Kept s) (unsubscribe_logs ref id s)
unfolding unsubscribe_logs unsubscribe_locked
unsubscribe_logs-IsSound ref id s h =
    unsubscribe_key-IsSound (compound_key ref) id (lookup (compound_key ref) s.log_subs) s h refl

close_subs-IsSound :
    (key : Text) (subs : Dict ℕ ℕ) (s : Store)
    → IsSound s
    → subs_of key s ≡ subs
    → Returns (Kept s) (close_subs key subs s)
unfolding close_subs
close_subs-IsSound key [] s h e = (s, refl, (h, refl))
close_subs-IsSound key (x ∷ xs) s h e =
    let less : (d : ℕ)
        → refs d (delete key s.log_subs) + count_refs d (x ∷ xs) ≤ refs d s.log_subs =
      λ d. omega (arith, refs-delete d key s.log_subs, ap (count_refs d) e) in
    Returns-bind (KeepsOthers (x ∷ xs) s.chans) (Kept s) (close_all (x ∷ xs) s.chans) _
      (close_all-KeepsOthers (x ∷ xs) s.chans (λ d p. h.live d (omega (arith, less d)))
        (λ d. omega (arith, less d, h.unique d)))
      λ k p. (
        _,
        refl,
        (
          shrink-IsSound s (delete key s.log_subs) k h (λ d. omega (arith, less d))
              (λ d q. p d (omega (arith, less d, h.unique d))),
          refl,
        ),
      )

pub close_log_streams-IsSound :
    (ref : Option JobRef) (s : Store) → IsSound s → Returns (Kept s) (close_log_streams ref s)
unfolding close_log_streams
close_log_streams-IsSound ref s h =
    close_subs-IsSound (compound_key ref) (subs_of (compound_key ref) s) s h refl
