-- ===== src/Control/Store/Refs.antt =====
-- How often a channel is registered in the subscription tables of the store, and how the table
-- operations change that number.
use xrunner.Base.{
  Option, Text, [], arith, eqb, get_or, if◌then◌else◌, none, some, ℕ, ◌+◌, ◌∷◌, ◌≡◌, ◌≤◌, nat_eq,
  text_eq,
}
use xrunner.Base.Dict.{Dict, delete, insert, lookup}

-- The registrations of channel `c` among the subscribers of one job.
unfoldable pub count_refs : ℕ → Dict ℕ ℕ → ℕ
count_refs c [] = 0
count_refs c ((id, d) ∷ subs) = (if eqb d c then 1 else 0) + count_refs c subs

-- The registrations of channel `c` among those of all jobs.
unfoldable pub refs : ℕ → Dict Text (Dict ℕ ℕ) → ℕ
refs c [] = 0
refs c ((key, subs) ∷ m) = count_refs c subs + refs c m

abbrev pub is_chan : ℕ → Option ℕ → ℕ
is_chan c none = 0
is_chan c (some d) = if eqb d c then 1 else 0

pub count_refs-insert :
    (c id d : ℕ) (m : Dict ℕ ℕ)
    → count_refs c (insert id d m) ≤ count_refs c m + (if eqb d c then 1 else 0)
unfolding count_refs insert
count_refs-insert c id d [] = omega arith
count_refs-insert c id d ((i, w) ∷ m) = ground (arith, count_refs-insert c id d m)

pub count_refs-delete :
    (c id : ℕ) (m : Dict ℕ ℕ)
    → count_refs c (delete id m) + is_chan c (lookup id m) ≤ count_refs c m
unfolding count_refs delete lookup
count_refs-delete c id [] = omega arith
count_refs-delete c id ((i, w) ∷ m) = ground (arith, count_refs-delete c id m)

pub refs-insert :
    (c : ℕ) (key : Text) (v : Dict ℕ ℕ) (m : Dict Text (Dict ℕ ℕ))
    → refs c (insert key v m) + count_refs c (get_or (lookup key m) []) ≡ refs c m + count_refs c v
unfolding refs insert lookup
refs-insert c key v [] = unfold count_refs in omega arith
refs-insert c key v ((j, w) ∷ m) = ground (arith, refs-insert c key v m)

pub refs-delete :
    (c : ℕ) (key : Text) (m : Dict Text (Dict ℕ ℕ))
    → refs c (delete key m) + count_refs c (get_or (lookup key m) []) ≤ refs c m
unfolding refs delete lookup
refs-delete c key [] = unfold count_refs in omega arith
refs-delete c key ((j, w) ∷ m) = ground (arith, refs-delete c key m)
