-- ===== src/Portal/Events/Once.antt =====
-- A failed run is reported once.
use fresh_stackable_data_pla.Prelude.{
  ℕ, ◌≡◌, refl, ◌∙◌, true, false, Option, List, [], ◌∷◌, Text, text_eq, nat_eq, All, contains,
  ==-refl,
}
use fresh_stackable_data_pla.Prelude.Alls.{All-map, All-keep, All-insert, All-lookup}
use fresh_stackable_data_pla.Json.{Json}
use fresh_stackable_data_pla.Effect.Keeps.{
  Keeps, >>=-Keeps, pure-Keeps, raise-Keeps, per_option-Keeps, keeps,
}
use fresh_stackable_data_pla.Effect.Takes.{
  Takes, Takes-Keeps, pure-Takes, modify-Takes, if-Takes, lift->>=-Takes, gets->>=-Takes,
  modify->>=-Takes,
}
use fresh_stackable_data_pla.Http.{Reply}
use fresh_stackable_data_pla.Portal.Events.Runs.{
  ids, Once, Once-tail, Once-grown, not_reported, append_event-Once, put_all-Once,
}
use fresh_stackable_data_pla.Portal.Events.{
  Clock, Event, Feed, publish_event, report_run, report_runs, poll_round, poll_airflow_failures,
  subscribe, next_event, unsubscribe, Step, polled, subscribed, taken, gone, Steps, done, later,
  start,
}

pub record Fresh (w : Feed) : Type 0 where
  pub history : Once w.seen w.events
  pub queues : All (λ q. Once w.seen q.1) w.subscribers

-- The run was seen just now, and nothing is reported of it yet.
record Pending (k : Text) (w : Feed) : Type 0 where
  pub fresh : Fresh w
  pub known : contains w.seen k ≡ true
  pub history : contains (ids w.events) k ≡ false
  pub queues : All (λ q. contains (ids q.1) k ≡ false) w.subscribers

publish_event-Fresh : (evt : Event) (w : Feed) → Pending evt.id w → Fresh (publish_event evt w)
unfolding publish_event
publish_event-Fresh evt w p = record {
  history = append_event-Once w.seen w.events evt p.fresh.history p.known p.history;
  queues = put_all-Once w.seen evt w.subscribers p.fresh.queues p.known p.queues;
}

see-Pending :
    (k : Text) (w : Feed)
    → Fresh w
    → contains w.seen k ≡ false
    → Pending k (record w { seen = k ∷ w.seen })
unfolding contains
see-Pending k w f n = record {
  fresh = record {
    history = Once-grown w.seen k w.events f.history;
    queues = All-map _ _ w.subscribers (λ q o. Once-grown w.seen k q.1 o) f.queues;
  };
  known = rw (==-refl k) refl;
  history = not_reported w.seen k w.events n f.history;
  queues = All-map _ _ w.subscribers (λ q o. not_reported w.seen k q.1 n o) f.queues;
}

module _ (py : Clock) where
  report_run-Fresh : (now : ℕ) (run : Json) → Takes Fresh Fresh (report_run py now run)
  unfolding report_run
  report_run-Fresh now run =
      lift->>=-Takes _ (λ s f. f)
        λ dag.
          lift->>=-Takes _ (λ s f. f)
            λ key. gets->>=-Takes _ λ seen.
              if-Takes seen (λ e. pure-Takes _ λ s (f, _). f)
                (λ e.
                  modify->>=-Takes _ (λ s (f, g). see-Pending _ s f (g ∙ e))
                    (lift->>=-Takes _ (λ s p. p.fresh)
                      λ dag_id.
                        lift->>=-Takes _ (λ s p. p.fresh)
                          λ given.
                            lift->>=-Takes _ (λ s p. p.fresh)
                              λ started.
                                lift->>=-Takes _ (λ s p. p.fresh)
                                  λ ended.
                                    lift->>=-Takes _ (λ s p. p.fresh)
                                      λ ago. modify-Takes _ λ s p. publish_event-Fresh _ s p))

  report_runs-Fresh : (now : ℕ) (runs : List Json) → Keeps Fresh (report_runs py now runs)
  unfolding report_runs
  report_runs-Fresh now [] = pure-Keeps _
  report_runs-Fresh now (run ∷ runs) =
      >>=-Keeps (Takes-Keeps (report_run-Fresh now run)) λ _. report_runs-Fresh now runs

  poll_round-Fresh : (now : ℕ) (answer : Option Reply) → Keeps Fresh (poll_round py now answer)
  unfolding poll_round
  poll_round-Fresh now answer =
      per_option-Keeps answer (raise-Keeps _) λ r. search (keeps, report_runs-Fresh) depth 16

  Step-Fresh : {w v : Feed} → Step py w v → Fresh w → Fresh v
  unfolding poll_airflow_failures subscribe next_event unsubscribe ids
  Step-Fresh (polled {w} now answer) f = (poll_round-Fresh now answer).at w f
  Step-Fresh (subscribed {w} c n) f = record {
    history = f.history;
    queues =
        All-insert (Once w.seen) c [] w.subscribers (record { different = tt; known = tt })
          f.queues;
  }
  Step-Fresh (taken {w} c evt q e) f = record {
    history = f.history;
    queues =
        All-insert (Once w.seen) c q w.subscribers
          (Once-tail w.seen evt q (All-lookup (Once w.seen) c (evt ∷ q) w.subscribers e f.queues))
          f.queues;
  }
  Step-Fresh (gone {w} c) f = record {
    history = f.history;
    queues = All-keep _ _ w.subscribers f.queues;
  }

  Steps-kept : {w v : Feed} → Steps py w v → Fresh w → Fresh v
  Steps-kept done f = f
  Steps-kept (later s t) f = Step-Fresh t (Steps-kept s f)

  -- In every state that the polls and the clients reach, the events of the history are of different
  -- failed runs, and so are those that wait for a client; each of the runs was seen.
  pub Steps-Fresh : {w : Feed} → Steps py start w → Fresh w
  unfolding ids
  Steps-Fresh s =
      Steps-kept s (record { history = record { different = tt; known = tt }; queues = tt })
