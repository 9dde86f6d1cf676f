-- ===== src/Bridge/World/Since.antt =====
-- The requests that a call adds to the log, and the task ids that it leaves alone.
use fresh_stackable_data_pla.Prelude.{
  ◌≡◌, refl, Option, none, some, List, [], ◌∷◌, ◌++◌, All, ap, arith,
}
use fresh_stackable_data_pla.Effect.{final, returned}
use fresh_stackable_data_pla.Effect.Gives.{Gives, Holds}
use fresh_stackable_data_pla.Effect.Keeps.{Keeps}
use fresh_stackable_data_pla.Bridge.World.{Call, Reply, Remote, World, send, answered}

-- Between the two states only requests with the property were sent, and no task id was marked.
pub record Since (Q : Call → Type 0) (w₀ w : World) : Type 0 where
  pub new : List Call
  pub log_eq : w.log ≡ new ++ w₀.log
  pub sent : All Q new
  pub processed_eq : w.processed ≡ w₀.processed

pub Since-refl : (Q : Call → Type 0) (w : World) → Since Q w w
Since-refl Q w = record { new = []; log_eq = refl; sent = tt; processed_eq = refl }

module _ {Q : Call → Type 0} {w₀ : World} where
  answered-Since :
      (c : Call) (w : World) (r : Option Reply)
      → Q c
      → Since Q w₀ w
      → Since Q w₀ (final (answered c w r))
  unfolding answered
  answered-Since c w none q s = record {
    new = c ∷ s.new;
    log_eq = ap (λ l. c ∷ l) s.log_eq;
    sent = (q, s.sent);
    processed_eq = s.processed_eq;
  }
  answered-Since c w (some r) q s = record {
    new = c ∷ s.new;
    log_eq = ap (λ l. c ∷ l) s.log_eq;
    sent = (q, s.sent);
    processed_eq = s.processed_eq;
  }

  pub send-Since : (remote : Remote) (c : Call) → Q c → Keeps (Since Q w₀) (send remote c)
  unfolding send
  send-Since remote c q = record { at = λ w s. answered-Since c w (remote w.log c) q s }

module _ {Q : Call → Type 0} {w₀ : World} where
  answered-Holds :
      (c : Call) (w : World) (o : Option Reply) {R : Reply → Type 0}
      → ((r : Reply) → o ≡ some r → R r)
      → Q c
      → Since Q w₀ w
      → Holds (Since Q w₀) R (answered c w o)
  unfolding answered
  answered-Holds c w none k q s = record {
    new = c ∷ s.new;
    log_eq = ap (λ l. c ∷ l) s.log_eq;
    sent = (q, s.sent);
    processed_eq = s.processed_eq;
  }
  answered-Holds c w (some r) k q s = (
    record {
      new = c ∷ s.new;
      log_eq = ap (λ l. c ∷ l) s.log_eq;
      sent = (q, s.sent);
      processed_eq = s.processed_eq;
    },
    k r refl,
  )

  -- What is returned is an answer to the request.
  pub send-Gives :
      (remote : Remote) (c : Call)
      → Q c
      → Gives (Since Q w₀) (λ r. (log : List Call) × (remote log c ≡ some r)) (send remote c)
  unfolding send
  send-Gives remote c q = record {
    at = λ w s. answered-Holds c w (remote w.log c) (λ r e. (w.log, e)) q s;
  }

answered_after :
    (c : Call) (w u : World) (o : Option Reply) (r : Reply)
    → answered c w o ≡ returned r u
    → (o ≡ some r) × (u.log ≡ c ∷ w.log)
unfolding answered
answered_after c w u none r h = absurd (cc)
answered_after c w u (some q) r h = (ground arith, ground arith)

-- The answer and the log after a request that was answered.
pub send-returned :
    (remote : Remote) (c : Call) (w u : World) (r : Reply)
    → send remote c w ≡ returned r u
    → (remote w.log c ≡ some r) × (u.log ≡ c ∷ w.log)
unfolding send
send-returned remote c w u r h = answered_after c w u (remote w.log c) r h
