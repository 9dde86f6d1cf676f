-- ===== src/Portal/Events.antt =====
-- The events of the portal: `_publish_event`, `_fmt_ago`, `_poll_airflow_failures` and the queues of
-- `events_stream`. A poll is one step, as the code between two `await`s is. `str` and
-- `datetime.fromisoformat` of Python are parameters.
pub mod Bounded
pub mod Runs
pub mod Once
mod Tests
use Prim.{Unit, tt}
use fresh_stackable_data_pla.Prelude.{
  ℕ, ◌+◌, ◌-◌, ◌/◌, ◌≡◌, Bool, true, false, Option, none, some, List, [], ◌∷◌, ◌++◌, Text, Dict,
  text_eq, nat_eq, ◌==◌, ltb, if◌then◌else◌, length, drop, contains, keep, lookup, insert, not,
}
use fresh_stackable_data_pla.Text.{txt}
use fresh_stackable_data_pla.Text.Number.{decimal}
use fresh_stackable_data_pla.Json.{Json, str, arr, nil, get, or_else, truthy, as_text, iterate}
use fresh_stackable_data_pla.Json.Dicts.{get_or}
use fresh_stackable_data_pla.Effect.{
  Result, ok, err, client_error, Exec, final, pure, lift, gets, modify, per_option, raise, ◌>>=◌,
  ◌>>◌,
}
use fresh_stackable_data_pla.Http.{Reply, json_of, raise_for_status}

abbrev pub event_history : ℕ
event_history = 50

-- `asyncio.Queue(maxsize=20)`
abbrev pub queue_size : ℕ
queue_size = 20

pub record Event : Type 0 where
  pub id : Text
  pub tone : Text
  pub title : Text
  pub detail : Text
  pub ago : Text
  pub href : Text

-- `_events`, oldest first; `_seen_failed_runs`; and the queue of each client that is subscribed.
pub record Feed : Type 0 where
  pub events : List Event
  pub seen : List Text
  pub subscribers : Dict ℕ (List Event)

-- `deque(maxlen=EVENT_HISTORY).append`
unfoldable pub append_event : List Event → Event → List Event
append_event events evt = let all = events ++ (evt ∷ []) in drop (length all - event_history) all

-- `q.put_nowait(evt)`: a full queue drops it.
unfoldable pub put_nowait : Event → List Event → List Event
put_nowait evt q = if ltb (length q) queue_size then q ++ (evt ∷ []) else q

unfoldable pub put_all : Event → Dict ℕ (List Event) → Dict ℕ (List Event)
unfolding put_nowait
put_all evt [] = []
put_all evt ((c, q) ∷ subscribers) = (c, put_nowait evt q) ∷ put_all evt subscribers

unfoldable pub publish_event : Event → Feed → Feed
unfolding append_event put_all
publish_event evt w = record w {
  events = append_event w.events evt;
  subscribers = put_all evt w.subscribers;
}

-- The library's part: `str(v)`, and `fromisoformat` of a text whose `Z` was replaced, in
-- microseconds since 1970, none where it raises a `ValueError`.
pub record Clock : Type 0 where
  pub str_of : Json → Text
  pub from_iso : Text → Option ℕ

unfoldable pub ago_of : ℕ → Text
ago_of secs =
    if ltb secs 60
    then txt "nu"
    else if ltb secs 3600
    then decimal (secs / 60) ++ txt "m"
    else if ltb secs 86400
    then decimal (secs / 3600) ++ txt "u"
    else decimal (secs / 86400) ++ txt "d"

module _ (py : Clock) (now : ℕ) where
  -- A time in the future counts as now.
  unfoldable pub fmt_ago : Json → Result Text
  unfolding ago_of
  fmt_ago iso_ts = if truthy iso_ts then text_ago (as_text iso_ts) else ok (txt "nu")
    where
      text_ago : Result Text → Result Text
      text_ago (err e) = err e
      text_ago (ok s) = elim (py.from_iso s) [
        | none ↦ ok (txt "nu")
        | some moment ↦ ok (ago_of ((now - moment) / 1000000))
      ]

  -- One run of the loop.
  unfoldable pub report_run : Json → Exec Feed (Unit {0})
  unfolding fmt_ago publish_event
  report_run run = do
    dag ← lift (get "dag_id" run)
    key_run ← lift (get "dag_run_id" run)
    let run_key = py.str_of dag ++ (b'/' ∷ py.str_of key_run)
    seen ← gets (λ w. contains w.seen run_key)
    if seen then pure tt else do
      modify (λ w. record w { seen = run_key ∷ w.seen })
      dag_id ← lift (get_or "dag_id" (str []) run)
      given ← lift (get_or "dag_run_id" (str []) run)
      started ← lift (get "execution_date" run)
      ended ← lift (get "end_date" run)
      ago ← lift (fmt_ago (or_else started ended))
      modify (
          publish_event (record {
            id = run_key;
            tone = txt "down";
            title = txt "Airflow · " ++ (py.str_of dag_id ++ txt " gefaald");
            detail = txt "Run " ++ py.str_of given;
            ago = ago;
            href = txt "/embed/airflow/?path=%2Fdags%2F" ++ py.str_of dag_id;
          }))

  unfoldable pub report_runs : List Json → Exec Feed (Unit {0})
  unfolding report_run
  report_runs [] = pure tt
  report_runs (run ∷ runs) = do report_run run; report_runs runs

  -- A round of the poller with the answer of Airflow, if there is one.
  unfoldable pub poll_round : Option Reply → Exec Feed (Unit {0})
  unfolding report_runs
  poll_round answer =
      per_option (raise client_error)
        (λ r. do
          lift (raise_for_status r)
          body ← lift (json_of r)
          listed ← lift (get "dag_runs" body)
          runs ← lift (iterate (or_else listed (arr nil)))
          report_runs runs)
        answer

  -- Every exception of a round is caught; what was written before it stays.
  unfoldable pub poll_airflow_failures : Option Reply → Feed → Feed
  unfolding poll_round
  poll_airflow_failures answer w = final (poll_round answer w)

-- The steps of `event_gen` of a client that change the state: it subscribes, takes from its queue,
-- and leaves.
unfoldable pub subscribe : ℕ → Feed → Feed
subscribe c w = record w { subscribers = insert c [] w.subscribers }

unfoldable pub next_event : ℕ → List Event → Feed → Feed
next_event c q w = record w { subscribers = insert c q w.subscribers }

unfoldable pub unsubscribe : ℕ → Feed → Feed
unsubscribe c w = record w { subscribers = keep (λ p. not (p.0 == c)) w.subscribers }

-- What may happen next.
pub data Step (py : Clock) : Feed → Feed → Type 0 where
  polled :
      {w : Feed} (now : ℕ) (answer : Option Reply)
      → Step py w (poll_airflow_failures py now answer w)
  subscribed : {w : Feed} (c : ℕ) → lookup c w.subscribers ≡ none → Step py w (subscribe c w)
  taken :
      {w : Feed} (c : ℕ) (evt : Event) (q : List Event)
      → lookup c w.subscribers ≡ some (evt ∷ q)
      → Step py w (next_event c q w)
  gone : {w : Feed} (c : ℕ) → Step py w (unsubscribe c w)

pub data Steps (py : Clock) : Feed → Feed → Type 0 where
  done : {w : Feed} → Steps py w w
  later : {w v u : Feed} → Steps py w v → Step py v u → Steps py w u

-- The state in which the program starts.
abbrev pub start : Feed
start = record { events = []; seen = []; subscribers = [] }
