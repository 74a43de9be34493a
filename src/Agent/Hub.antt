-- ===== src/Agent/Hub.antt =====
-- The subscribers of internal/remote/session_service.go. A Go channel is its buffer on a heap; a send on
-- a closed channel and a second close panic, which is `none`. `broadcast` collects its targets
-- under the mutex and sends after it has let go of it.
pub mod Safety
use xrunner.Base.{
  List, Option, Text, [], eqb, get_or, if◌then◌else◌, leb, length, ltb, nat_eq, none, some, text_eq,
  ℕ, ◌%◌, ◌&&◌, ◌++◌, ◌+◌, ◌>>=◌, ◌^◌, ◌∷◌,
}
use xrunner.Base.Dict.{Dict, delete, insert, lookup}
use xrunner.Session.Defs.{AgentEvent}

pub data Chan : Type 0 where
  open_chan closed_chan : List AgentEvent → Chan

-- make(chan *AgentEvent, 8192)
abbrev pub chan_cap : ℕ
chan_cap = 8192

abbrev pub update : (ℕ → Chan) → ℕ → Chan → ℕ → Chan
update h c x d = if eqb c d then x else h d

pub record Hub : Type 0 where
  pub subscribers : Dict Text (Dict ℕ ℕ)
  pub next_sub_id : ℕ  -- int64
  pub chans : ℕ → Chan
  pub next_chan : ℕ

unfoldable pub new_hub : Hub
new_hub = record { subscribers = []; next_sub_id = 0; chans = λ c. closed_chan []; next_chan = 0 }

abbrev pub rest_of : List AgentEvent → List AgentEvent
rest_of [] = []
rest_of (x ∷ xs) = xs

abbrev pub offer : AgentEvent → List AgentEvent → List AgentEvent
offer evt q = if ltb (length q) chan_cap then q ++ evt ∷ [] else q

-- The three selects of sendDropOldest on an open channel. `first` and `second` are what other
-- goroutines do to the channel between them: if `second` fills it again, the new event is dropped.
abbrev pub push_among :
    (List AgentEvent → List AgentEvent)
    → (List AgentEvent → List AgentEvent)
    → AgentEvent
    → List AgentEvent
    → List AgentEvent
push_among first second evt q =
    if ltb (length q) chan_cap then q ++ evt ∷ [] else offer evt (second (rest_of (first q)))

-- With no other sender or reader between.
abbrev pub push : AgentEvent → List AgentEvent → List AgentEvent
push evt q = push_among (λ r. r) (λ r. r) evt q

abbrev pub send_to : AgentEvent → Chan → Option Chan
send_to evt (open_chan q) = some (open_chan (push evt q))
send_to evt (closed_chan q) = none

unfoldable pub send_drop_oldest : ℕ → AgentEvent → Hub → Option Hub
send_drop_oldest c evt s =
    send_to evt (s.chans c) >>= λ ch. some (record s { chans = update s.chans c ch })

abbrev pub subs_of : Text → Hub → Dict ℕ ℕ
subs_of session_id s = get_or (lookup session_id s.subscribers) []

abbrev pub channels : Dict ℕ ℕ → List ℕ
channels [] = []
channels ((id, c) ∷ subs) = c ∷ channels subs

-- The two parts of broadcast: under the mutex, and after it.
unfoldable pub targets : AgentEvent → Hub → List ℕ
targets evt s = channels (subs_of evt.session_id s)

unfoldable pub send_all : List ℕ → AgentEvent → Hub → Option Hub
unfolding send_drop_oldest
send_all [] evt s = some s
send_all (c ∷ cs) evt s = send_drop_oldest c evt s >>= λ t. send_all cs evt t

unfoldable pub broadcast : AgentEvent → Hub → Option Hub
unfolding targets send_all
broadcast evt s = send_all (targets evt s) evt s

-- The new subscription's id, and its channel.
unfoldable pub subscribe : Text → Hub → Hub × (ℕ × ℕ)
subscribe session_id s =
    let id = s.next_sub_id in
    let c = s.next_chan in
    (
      record s {
        subscribers = insert session_id (insert id c (subs_of session_id s)) s.subscribers;
        next_sub_id = (id + 1) % 2 ^ 64;
        chans = update s.chans c (open_chan []);
        next_chan = c + 1;
      },
      (id, c),
    )

abbrev pub close_chan : Chan → Option Chan
close_chan (open_chan q) = some (closed_chan q)
close_chan (closed_chan q) = none

abbrev pub drop_empty : Text → Dict ℕ ℕ → Dict Text (Dict ℕ ℕ) → Dict Text (Dict ℕ ℕ)
drop_empty session_id [] m = delete session_id m
drop_empty session_id (x ∷ subs) m = insert session_id (x ∷ subs) m

abbrev pub unsubscribe_from : Text → ℕ → Dict ℕ ℕ → Option ℕ → Hub → Option Hub
unsubscribe_from session_id id subs none s =
    some (record s { subscribers = drop_empty session_id subs s.subscribers })
unsubscribe_from session_id id subs (some c) s = close_chan (s.chans c) >>= λ ch. some (record s {
  chans = update s.chans c ch;
  subscribers = drop_empty session_id (delete id subs) s.subscribers;
})

abbrev pub unsubscribe_session : Text → ℕ → Option (Dict ℕ ℕ) → Hub → Option Hub
unsubscribe_session session_id id none s = some s
unsubscribe_session session_id id (some subs) s =
    unsubscribe_from session_id id subs (lookup id subs) s

unfoldable pub unsubscribe : Text → ℕ → Hub → Option Hub
unsubscribe session_id id s = unsubscribe_session session_id id (lookup session_id s.subscribers) s

-- sendEvent: what a stream sends of an event that it received; `after` is the request's.
unfoldable pub send_event : ℕ → AgentEvent → List AgentEvent
send_event after ev = if ltb 0 ev.event_id && leb ev.event_id after then [] else ev ∷ []
