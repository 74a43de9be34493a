-- ===== src/Agent/Tests.antt =====
-- The theorems on agent sessions at concrete inputs.
mod Conversation
mod Disk
use xrunner.Base.{
  Returns, [], arith, codes, false, nat_eq, none, refl, some, text_beq, text_eq, true, ◌/◌, ◌∷◌,
  ◌≡◌,
}
use xrunner.Base.Dict.{lookup}
use xrunner.Agent.Buffer.{Holds, limited_buffer_Holds, new_limited_buffer, write_all}
use xrunner.Agent.Hub.{Hub, open_chan, send_all, targets, unsubscribe}
use xrunner.Agent.Hub.Safety.{broadcast_race, send_events, send_events_last}
use xrunner.Agent.Paths.{
  clean, escapes, join_path, refused, resolve_session_workdir, resolve_under, resolve_write_path,
  resolved,
}
use xrunner.Agent.Paths.Cleaning.{IsName, resolve_under-accepts}
use xrunner.Agent.Paths.Within.{Under, resolve_session_workdir-Under, resolve_write_path-Under}
use xrunner.Session.Defs.{AgentEvent}

abbrev hello : AgentEvent
hello = record {
  session_id = codes "s";
  event_id = 7;
  timestamp = some 1;
  low_lane = false;
  payload = 1 ∷ [];
}

abbrev one_subscriber : Hub
one_subscriber = record {
  subscribers = (codes "s", (0, 0) ∷ []) ∷ [];
  next_sub_id = 1;
  chans = λ c. open_chan [];
  next_chan = 1;
}

limited_buffer_Holds_example :
    Holds 3
      (104 ∷ 105 ∷ 33 ∷ 33 ∷ [])
      (write_all ((104 ∷ 105 ∷ []) ∷ (33 ∷ 33 ∷ []) ∷ []) (new_limited_buffer 3))
limited_buffer_Holds_example =
    limited_buffer_Holds 3 ((104 ∷ 105 ∷ []) ∷ (33 ∷ 33 ∷ []) ∷ []) (omega arith)

send_events_last_example :
    Returns
      (λ t. t.chans 0 ≡ open_chan (hello ∷ hello ∷ []))
      (send_events 0 (hello ∷ hello ∷ []) one_subscriber)
send_events_last_example =
    send_events_last 0 (hello ∷ hello ∷ []) [] one_subscriber refl (omega arith)

broadcast_race_example :
    (t : Hub) × (unsubscribe (codes "s") 0 one_subscriber ≡ some t)
    × (send_all (targets hello one_subscriber) hello t ≡ none)
unfolding lookup text_beq
broadcast_race_example = broadcast_race hello 0 0 [] ((0, 0) ∷ []) one_subscriber refl refl refl

resolve_session_workdir-Under_example :
    Under
      (clean (codes "/srv/w"))
      (record { rooted = true; elements = codes "srv" ∷ codes "w" ∷ codes "a" ∷ [] })
unfolding resolve_session_workdir text_beq
resolve_session_workdir-Under_example =
    resolve_session_workdir-Under (codes "/srv/w") (codes "b/../a")
      (record { rooted = true; elements = codes "srv" ∷ codes "w" ∷ codes "a" ∷ [] }) refl

resolve_write_path-Under_example :
    Under
      (clean (codes "/srv/w"))
      (record { rooted = true; elements = codes "srv" ∷ codes "w" ∷ codes "a" ∷ [] })
unfolding resolve_write_path text_beq
resolve_write_path-Under_example =
    resolve_write_path-Under (codes "/srv/w") (codes "b/../a")
      (record { rooted = true; elements = codes "srv" ∷ codes "w" ∷ codes "a" ∷ [] }) refl

-- `..` leaves the root, and is refused.
escaping_cwd :
    resolve_session_workdir (some (codes "/srv/w")) (codes "a/../..")
    ≡ refused (codes "cwd escapes workspace root")
unfolding resolve_session_workdir text_beq
escaping_cwd = refl

a-IsName : IsName (codes "a")
unfolding text_beq
a-IsName = (refl, refl, refl, ((λ e. cc), tt))

resolve_under-accepts_example :
    resolve_under (record { rooted = true; elements = codes "a" ∷ [] }) (codes "a/a")
    ≡ resolved (record { rooted = true; elements = codes "a" ∷ codes "a" ∷ codes "a" ∷ [] })
unfolding join_path text_beq
resolve_under-accepts_example =
    resolve_under-accepts (record { rooted = true; elements = codes "a" ∷ [] }) (codes "a")
      (codes "a" ∷ []) refl (a-IsName, tt) (a-IsName, (a-IsName, tt))
