-- ===== src/Portal/Events/Tests.antt =====
-- A failed run and a client, and the theorems there.
use fresh_stackable_data_pla.Prelude.{◌≡◌, refl, none, some, nat_eq, lookup}
use fresh_stackable_data_pla.Text.{txt}
use fresh_stackable_data_pla.Json.{str, arr, obj, nil, cons, end, field}
use fresh_stackable_data_pla.Http.{Reply}
use fresh_stackable_data_pla.Portal.Events.{
  Clock, Feed, poll_airflow_failures, subscribe, Steps, done, later, subscribed, polled, start,
}
use fresh_stackable_data_pla.Portal.Events.Bounded.{Bounded, Steps-Bounded}
use fresh_stackable_data_pla.Portal.Events.Once.{Fresh, Steps-Fresh}

abbrev clock : Clock
clock = record { str_of = λ v. txt "nightly"; from_iso = λ s. none }

abbrev one_failure : Reply
one_failure = record {
  status = 200;
  body = some (
      obj (field "dag_runs" (arr (cons (obj (field "dag_id" (str (txt "nightly")) end)) nil)) end));
}

free : lookup 7 start.subscribers ≡ none
unfolding lookup
free = refl

abbrev reported : Feed
reported = poll_airflow_failures clock 0 (some one_failure) (subscribe 7 start)

abbrev run : Steps clock start reported
run = later (later done (subscribed 7 free)) (polled 0 (some one_failure))

Steps-Bounded_example : Bounded reported
Steps-Bounded_example = Steps-Bounded clock run

Steps-Fresh_example : Fresh reported
Steps-Fresh_example = Steps-Fresh clock run
