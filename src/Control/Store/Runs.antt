-- ===== src/Control/Store/Runs.antt =====
-- Sequences of calls. The mutex makes each method one step, so any interleaving of goroutines is
-- a list of calls.
use xrunner.Base.{List, Option, Returns, Returns-bind, [], refl, some, ℕ, ◌>>=◌, ◌∷◌}
use xrunner.Control.Types.{Job, JobRef, LogChunk}
use xrunner.Control.Store.Sound.{IsSound, append_logs-IsSound, put-IsSound, subscribe_logs-IsSound}
use xrunner.Control.Store.Safety.{Kept, close_log_streams-IsSound, unsubscribe_logs-IsSound}
use xrunner.Control.Store.Defs.{
  Store, append_logs, close_log_streams, put, subscribe_logs, unsubscribe_logs,
}

pub data Call : Type 0 where
  put_call : Option Job → Call
  append_call : Option JobRef → List LogChunk → Call
  subscribe_call : Option JobRef → Call
  unsubscribe_call : Option JobRef → ℕ → Call
  close_call : Option JobRef → Call

unfoldable pub call : Call → Store → Option Store
call (put_call job) s = some (put job s)
call (append_call ref xs) s = append_logs ref xs s
call (subscribe_call ref) s = some (subscribe_logs ref s).0
call (unsubscribe_call ref id) s = unsubscribe_logs ref id s
call (close_call ref) s = close_log_streams ref s

unfoldable pub run : List Call → Store → Option Store
run [] s = some s
run (c ∷ cs) s = call c s >>= λ t. run cs t

weaken : (s : Store) (o : Option Store) → Returns (Kept s) o → Returns IsSound o
weaken s o (t, e, k) = (t, e, k.0)

pub call-IsSound : (c : Call) (s : Store) → IsSound s → Returns IsSound (call c s)
unfolding call
call-IsSound (put_call job) s h = (put job s, refl, put-IsSound job s h)
call-IsSound (append_call ref xs) s h = append_logs-IsSound ref xs s h
call-IsSound (subscribe_call ref) s h = (_, refl, subscribe_logs-IsSound ref s h)
call-IsSound (unsubscribe_call ref id) s h = weaken s _ (unsubscribe_logs-IsSound ref id s h)
call-IsSound (close_call ref) s h = weaken s _ (close_log_streams-IsSound ref s h)

-- From a sound store, any list of calls runs through without a panic (no send on a closed channel,
-- no second close), and ends in a sound store.
pub run-IsSound : (cs : List Call) (s : Store) → IsSound s → Returns IsSound (run cs s)
unfolding run
run-IsSound [] s h = (s, refl, h)
run-IsSound (c ∷ cs) s h =
    Returns-bind IsSound IsSound (call c s) (run cs) (call-IsSound c s h) (run-IsSound cs)
