-- ===== src/Bridge/World/Answered.antt =====
-- What a service answered to a request of the bridge.
use Prim.{Unit}
use fresh_stackable_data_pla.Prelude.{◌≤◌, ◌≡◌, true, some, List, nat_eq, ◌==◌, arith}
use fresh_stackable_data_pla.Json.{Json}
use fresh_stackable_data_pla.Effect.{ok}
use fresh_stackable_data_pla.Bridge.World.{Call, Reply, Remote, json_of, raise_for_status}

-- The service answered the body to the request, with a status of success.
pub record Answered (remote : Remote) (c : Call) (body : Json) : Type 0 where
  pub log : List Call
  pub reply : Reply
  pub answer : remote log c ≡ some reply
  pub least : 200 ≤ reply.status
  pub most : reply.status ≤ 299
  pub holds : reply.body ≡ some body

body_of : (r : Reply) (v : Json) → json_of r ≡ ok v → r.body ≡ some v
unfolding json_of
body_of r v h = ground (arith, h)

module _ (remote : Remote) (c : Call) (r : Reply) (log : List Call)
    (e : remote log c ≡ some r) where
  pub fine-Answered :
      (t : Unit {0}) (v : Json) → raise_for_status r ≡ ok t → json_of r ≡ ok v → Answered remote c v
  unfolding raise_for_status
  fine-Answered t v f b = record {
    log = log;
    reply = r;
    answer = e;
    least = ground (arith, f);
    most = ground (arith, f);
    holds = body_of r v b;
  }

  pub equal-Answered :
      (v : Json) → (r.status == 200) ≡ true → json_of r ≡ ok v → Answered remote c v
  equal-Answered v q b = record {
    log = log;
    reply = r;
    answer = e;
    least = ground (arith, q);
    most = ground (arith, q);
    holds = body_of r v b;
  }
