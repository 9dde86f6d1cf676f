-- ===== src/Portal/Events/Bounded.antt =====
-- The sizes of the history and of the queues.
use fresh_stackable_data_pla.Prelude.{
  ℕ, zero, suc, ◌-◌, ◌≤◌, ◌≡◌, Option, List, [], ◌∷◌, ◌++◌, Dict, nat_eq, arith, length, drop,
  length-append, All,
}
use fresh_stackable_data_pla.Prelude.Alls.{All-keep, All-insert, All-lookup}
use fresh_stackable_data_pla.Json.{Json}
use fresh_stackable_data_pla.Effect.Keeps.{
  Keeps, >>=-Keeps, modify-Keeps, pure-Keeps, lift-Keeps, gets-Keeps, raise-Keeps, if-Keeps,
  per_option-Keeps, keeps,
}
use fresh_stackable_data_pla.Http.{Reply}
use fresh_stackable_data_pla.Portal.Events.{
  Clock, Event, Feed, event_history, queue_size, append_event, put_nowait, put_all, publish_event,
  report_run, report_runs, poll_round, poll_airflow_failures, subscribe, next_event, unsubscribe,
  Step, polled, subscribed, taken, gone, Steps, done, later, start,
}

-- No more than 50 events are kept for a new client, and no more than 20 wait for a client.
pub record Bounded (w : Feed) : Type 0 where
  pub history : length w.events ≤ event_history
  pub queues : All (λ q. length q.1 ≤ queue_size) w.subscribers

length-drop : {A : Type 0} (n : ℕ) (xs : List A) → length (drop n xs) ≡ length xs - n
length-drop zero xs = omega arith
length-drop (suc n) [] = omega arith
length-drop (suc n) (x ∷ xs) = omega (arith, length-drop n xs)

append_event-short : (events : List Event) (evt : Event) → length (append_event events evt) ≤ 50
unfolding append_event
append_event-short events evt =
    omega (arith, length-drop (length (events ++ (evt ∷ [])) - 50) (events ++ (evt ∷ [])))

put_nowait-short : (evt : Event) (q : List Event) → length q ≤ 20 → length (put_nowait evt q) ≤ 20
unfolding put_nowait
put_nowait-short evt q h = ground (arith, h, length-append q (evt ∷ []))

put_all-short :
    (evt : Event) (d : Dict ℕ (List Event))
    → All (λ q. length q.1 ≤ 20) d
    → All (λ q. length q.1 ≤ 20) (put_all evt d)
unfolding put_all
put_all-short evt [] h = tt
put_all-short evt ((c, q) ∷ d) (p, h) = (put_nowait-short evt q p, put_all-short evt d h)

publish_event-Bounded : (evt : Event) (w : Feed) → Bounded w → Bounded (publish_event evt w)
unfolding publish_event
publish_event-Bounded evt w b = record {
  history = append_event-short w.events evt;
  queues = put_all-short evt w.subscribers b.queues;
}

module _ (py : Clock) where
  report_run-Bounded : (now : ℕ) (run : Json) → Keeps Bounded (report_run py now run)
  unfolding report_run
  report_run-Bounded now run = >>=-Keeps (lift-Keeps _) λ dag. >>=-Keeps (lift-Keeps _) λ key.
      >>=-Keeps (gets-Keeps _) λ seen. if-Keeps _ (pure-Keeps _) (
        >>=-Keeps (modify-Keeps _ λ w b. record { history = b.history; queues = b.queues }) λ _.
          >>=-Keeps (lift-Keeps _) λ dag_id. >>=-Keeps (lift-Keeps _) λ given.
            >>=-Keeps (lift-Keeps _) λ started.
              >>=-Keeps (lift-Keeps _)
                λ ended. >>=-Keeps (lift-Keeps _) λ ago. modify-Keeps _ (publish_event-Bounded _))

  report_runs-Bounded : (now : ℕ) (runs : List Json) → Keeps Bounded (report_runs py now runs)
  unfolding report_runs
  report_runs-Bounded now [] = pure-Keeps _
  report_runs-Bounded now (run ∷ runs) =
      >>=-Keeps (report_run-Bounded now run) λ _. report_runs-Bounded now runs

  poll_round-Bounded : (now : ℕ) (answer : Option Reply) → Keeps Bounded (poll_round py now answer)
  unfolding poll_round
  poll_round-Bounded now answer =
      per_option-Keeps answer (raise-Keeps _) λ r. search (keeps, report_runs-Bounded) depth 16

  Step-Bounded : {w v : Feed} → Step py w v → Bounded w → Bounded v
  unfolding poll_airflow_failures subscribe next_event unsubscribe
  Step-Bounded (polled {w} now answer) b = (poll_round-Bounded now answer).at w b
  Step-Bounded (subscribed {w} c n) b = record {
    history = b.history;
    queues = All-insert (λ q. length q ≤ 20) c [] w.subscribers (omega arith) b.queues;
  }
  Step-Bounded (taken {w} c evt q e) b = record {
    history = b.history;
    queues =
        All-insert (λ q. length q ≤ 20) c q w.subscribers
          (omega (arith, All-lookup (λ q. length q ≤ 20) c (evt ∷ q) w.subscribers e b.queues))
          b.queues;
  }
  Step-Bounded (gone {w} c) b = record {
    history = b.history;
    queues = All-keep _ _ w.subscribers b.queues;
  }

  Steps-kept : {w v : Feed} → Steps py w v → Bounded w → Bounded v
  Steps-kept done b = b
  Steps-kept (later s t) b = Step-Bounded t (Steps-kept s b)

  -- In every state that the polls and the clients reach, the history has 50 events at most and a
  -- queue 20.
  pub Steps-Bounded : {w : Feed} → Steps py start w → Bounded w
  Steps-Bounded s = Steps-kept s (record { history = omega arith; queues = tt })
