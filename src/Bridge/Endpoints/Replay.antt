-- ===== src/Bridge/Endpoints/Replay.antt =====
-- `replay_task`: what a call leaves of the record of processed tasks.
use fresh_stackable_data_pla.Prelude.{
  ℕ, ◌≡◌, refl, true, false, ◌&&◌, not, Text, text_eq, ◌==◌, ==-refl, arith, contains,
  contains-keep,
}
use fresh_stackable_data_pla.Json.{Json, int, is_dict}
use fresh_stackable_data_pla.Effect.{ok, http, raised, ◌>>=◌}
use fresh_stackable_data_pla.Bridge.Grant.{Python, is_text}
use fresh_stackable_data_pla.Bridge.World.{Remote, World}
use fresh_stackable_data_pla.Bridge.Endpoints.{discard, event_task_id, replay_task}

pub contains-discard :
    (id : Text) (w : World) (t : Text)
    → contains (discard id w).processed t ≡ (not (t == id) && contains w.processed t)
unfolding discard
contains-discard id w t = contains-keep (λ s. not (s == id)) w.processed t

module _ (remote : Remote) (py : Python) where
  -- A replay whose body names another task id than the path is refused with a 400, and yet the
  -- task of the path is no longer marked as processed; the other tasks stay as they were.
  pub replay_task_mismatch :
      (task_id : Text) (event id : Json) (w : World)
      → is_dict event ≡ true
      → event_task_id event ≡ ok id
      → is_text task_id id ≡ false
      → (replay_task remote py task_id event w
          ≡ raised (http 400 "Body task.id mismatcht pad-parameter") (discard task_id w))
        × (contains (discard task_id w).processed task_id ≡ false)
        × ((t : Text)
            → (t == task_id) ≡ false
            → contains (discard task_id w).processed t ≡ contains w.processed t)
  unfolding replay_task ◌>>=◌
  replay_task_mismatch task_id event id w d e m = (
    ground (arith, e),
    ground (arith, contains-discard task_id w task_id, ==-refl task_id),
    λ t other. ground (arith, contains-discard task_id w t),
  )

  -- So every replay of a task whose id is a number, as OpenMetadata 1.12 sends it, is refused.
  pub replay_task_number :
      (task_id : Text) (event : Json) (n : ℕ) (w : World)
      → is_dict event ≡ true
      → event_task_id event ≡ ok (int n)
      → replay_task remote py task_id event w
        ≡ raised (http 400 "Body task.id mismatcht pad-parameter") (discard task_id w)
  unfolding is_text
  replay_task_number task_id event n w d e =
      (replay_task_mismatch task_id event (int n) w d e refl).0
