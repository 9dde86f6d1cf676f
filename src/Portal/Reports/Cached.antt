-- ===== src/Portal/Reports/Cached.antt =====
-- The token of the service principal that is used.
use fresh_stackable_data_pla.Prelude.{ℕ, ◌+◌, ◌<◌, ◌≡◌, ◌⊎◌, Bool, Option, some, ◌∷◌, nat_eq, arith}
use fresh_stackable_data_pla.Json.{Json, int, item}
use fresh_stackable_data_pla.Json.Dicts.{get_or}
use fresh_stackable_data_pla.Effect.{ok}
use fresh_stackable_data_pla.Http.{Reply, Remote, json_of}
use fresh_stackable_data_pla.Http
use fresh_stackable_data_pla.Portal.Reports.{Call, sp_token, World, Moments, seconds, expiry}

-- The answer to the one request for a token: the token in its body, and the end of the life that
-- the body gives it, an hour where it gives none.
pub record Minted (remote : Remote Call) (int_of : Json → Option (Bool × ℕ)) (now : Moments)
    (before after : World) (tok : Json) (expires_at : ℕ) : Type 0 where
  pub reply : Reply
  pub body : Json
  pub given : Json
  pub life : Bool × ℕ
  pub asked : after.log ≡ sp_token ∷ before.log
  pub answer : remote before.log sp_token ≡ some reply
  pub success : reply.status ≡ 200
  pub holds : reply.body ≡ some body
  pub access : item "access_token" body ≡ ok tok
  pub lasts : get_or "expires_in" (int 3600) body ≡ ok given
  pub number : int_of given ≡ some life
  pub ends : expires_at ≡ expiry now.answered life

-- The token that is in the cache afterwards: it lasts more than a minute from one of the two looks
-- at the cache, or it was answered to the one request that was sent.
pub record Lasting (remote : Remote Call) (int_of : Json → Option (Bool × ℕ)) (now : Moments)
    (before after : World) (tok : Json) : Type 0 where
  pub expires_at : ℕ
  pub cached : after.cached ≡ some (tok, expires_at)
  pub lasts :
      ((now.first + seconds 60 < expires_at) × (after.log ≡ before.log))
      ⊎ (((now.locked + seconds 60 < expires_at) × (after.log ≡ before.log))
          ⊎ Minted remote int_of now before after tok expires_at)

body_of : (r : Reply) (v : Json) → json_of r ≡ ok v → r.body ≡ some v
unfolding json_of
body_of r v h = ground (arith, h)
