-- ===== src/Http/Sent.antt =====
-- The requests that a call adds to the log.
use fresh_stackable_data_pla.Prelude.{◌≡◌, refl, Option, none, some, List, [], ◌∷◌, ◌++◌, All, ap}
use fresh_stackable_data_pla.Effect.{final, returned}
use fresh_stackable_data_pla.Effect.Keeps.{Keeps}
use fresh_stackable_data_pla.Effect.Gives.{Gives, Holds}
use fresh_stackable_data_pla.Http.{Reply, Remote, send, try_send, answered}

-- Since the first log only requests with the property were sent.
pub record Sent {C : Type 0} (Q : C → Type 0) (before after : List C) : Type 0 where
  pub new : List C
  pub log_eq : after ≡ new ++ before
  pub sent : All Q new

pub Sent-refl : {C : Type 0} (Q : C → Type 0) (log : List C) → Sent Q log log
Sent-refl Q log = record { new = []; log_eq = refl; sent = tt }

module _ {C : Type 0} {Q : C → Type 0} {before : List C} where
  answered-Sent :
      (c : C) (log : List C) (r : Option Reply)
      → Q c
      → Sent Q before log
      → Sent Q before (final (answered c log r))
  unfolding answered
  answered-Sent c log none q s = record {
    new = c ∷ s.new;
    log_eq = ap (λ l. c ∷ l) s.log_eq;
    sent = (q, s.sent);
  }
  answered-Sent c log (some r) q s = record {
    new = c ∷ s.new;
    log_eq = ap (λ l. c ∷ l) s.log_eq;
    sent = (q, s.sent);
  }

  pub send-Sent : (remote : Remote C) (c : C) → Q c → Keeps (Sent Q before) (send remote c)
  unfolding send
  send-Sent remote c q = record { at = λ log s. answered-Sent c log (remote log c) q s }

pub try_send-Sent :
    {C : Type 0} {Q : C → Type 0} {before : List C} (remote : Remote C) (c : C)
    → Q c
    → Keeps (Sent Q before) (try_send remote c)
unfolding try_send
try_send-Sent remote c q = record {
  at = λ log s. record { new = c ∷ s.new; log_eq = ap (λ l. c ∷ l) s.log_eq; sent = (q, s.sent) };
}

pub send-answer :
    {C : Type 0} (remote : Remote C) (c : C) (log : List C) (r : Reply)
    → remote log c ≡ some r
    → send remote c log ≡ returned r (c ∷ log)
unfolding send answered
send-answer remote c log r h = ap (answered c log) h

module _ {C : Type 0} {Q : C → Type 0} {before : List C} where
  answered-Holds :
      (c : C) (log : List C) (o : Option Reply) {R : Reply → Type 0}
      → ((r : Reply) → o ≡ some r → R r)
      → Q c
      → Sent Q before log
      → Holds (Sent Q before) R (answered c log o)
  unfolding answered
  answered-Holds c log none k q s = record {
    new = c ∷ s.new;
    log_eq = ap (λ l. c ∷ l) s.log_eq;
    sent = (q, s.sent);
  }
  answered-Holds c log (some r) k q s =
      (record { new = c ∷ s.new; log_eq = ap (λ l. c ∷ l) s.log_eq; sent = (q, s.sent) }, k r refl)

  -- What is returned is an answer to the request.
  pub send-Gives :
      (remote : Remote C) (c : C)
      → Q c
      → Gives (Sent Q before) (λ r. (log : List C) × (remote log c ≡ some r)) (send remote c)
  unfolding send
  send-Gives remote c q = record {
    at = λ log s. answered-Holds c log (remote log c) (λ r e. (log, e)) q s;
  }

answered-log :
    {C : Type 0} (c : C) (log after : List C) (o : Option Reply) (r : Reply)
    → answered c log o ≡ returned r after
    → after ≡ c ∷ log
unfolding answered
answered-log c log after none r h = absurd (cc)
answered-log c log after (some q) r h = cc

pub send-log :
    {C : Type 0} (remote : Remote C) (c : C) (log after : List C) (r : Reply)
    → send remote c log ≡ returned r after
    → after ≡ c ∷ log
unfolding send
send-log remote c log after r h = answered-log c log after (remote log c) r h

answered-some :
    {C : Type 0} (c : C) (log after : List C) (o : Option Reply) (r : Reply)
    → answered c log o ≡ returned r after
    → o ≡ some r
unfolding answered
answered-some c log after none r h = absurd (cc)
answered-some c log after (some q) r h = cc

-- What a request returned is what was answered to it.
pub send-some :
    {C : Type 0} (remote : Remote C) (c : C) (log after : List C) (r : Reply)
    → send remote c log ≡ returned r after
    → remote log c ≡ some r
unfolding send
send-some remote c log after r h = answered-some c log after (remote log c) r h
