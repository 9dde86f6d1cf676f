-- ===== src/Http.antt =====
-- Answers of other services, and the log of the requests of a program that keeps no other state.
pub mod Sent
use Prim.{Unit, tt}
use fresh_stackable_data_pla.Prelude.{
  ℕ, Bool, true, false, ◌&&◌, not, Option, none, some, List, [], ◌∷◌, leb, if◌then◌else◌,
}
use fresh_stackable_data_pla.Json.{Json}
use fresh_stackable_data_pla.Effect.{
  Result, ok, err, client_error, crash, Outcome, returned, raised, Exec,
}

-- An answer; its body is none where it is no JSON.
pub record Reply : Type 0 where
  pub status : ℕ
  pub body : Option Json

-- `r.json()`
unfoldable pub json_of : Reply → Result Json
json_of r = elim r.body [ none ↦ err crash | some v ↦ ok v ]

-- `r.raise_for_status()` of httpx: every status but a 2xx raises.
unfoldable pub raise_for_status : Reply → Result (Unit {0})
raise_for_status r = if leb 200 r.status && leb r.status 299 then ok tt else err client_error

-- `r.raise_for_status()` of requests: the statuses from 400 to 599 raise.
unfoldable pub raise_for_error : Reply → Result (Unit {0})
raise_for_error r = if leb 400 r.status && leb r.status 599 then err client_error else ok tt

-- The other services as a function of the requests so far; none is a request without an answer.
abbrev pub Remote {ℓ} : Type ℓ → Type ℓ
Remote C = List C → C → Option Reply

module _ {ℓ} {C : Type ℓ} where
  answered : C → List C → Option Reply → Outcome (List C) Reply
  answered c log none = raised client_error (c ∷ log)
  answered c log (some r) = returned r (c ∷ log)

  -- One request; the log holds the newest first.
  unfoldable pub send : Remote C → C → Exec (List C) Reply
  unfolding answered
  send remote c log = answered c log (remote log c)

  -- The same where the program catches the exception of a request without an answer.
  unfoldable pub try_send : Remote C → C → Exec (List C) (Option Reply)
  try_send remote c log = returned (remote log c) (c ∷ log)
