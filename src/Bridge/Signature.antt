-- ===== src/Bridge/Signature.antt =====
-- `_decode_received_signature` and `_verify_signature` of platform/18-om-access-bridge/app/app.py.
-- Bytes are numbers below 256. The digest, base64 and UTF-8 are parameters.
pub mod Laws
use Prim.{Unit, tt}
use fresh_stackable_data_pla.Prelude.{
  ℕ, zero, suc, ◌+◌, ◌-◌, ◌*◌, ◌%◌, Bool, true, false, ◌&&◌, ◌||◌, not, Option, none, some, List,
  [], ◌∷◌, ◌++◌, Text, Eq, nat_eq, text_eq, ◌==◌, leb, ltb, if◌then◌else◌, length, every, is_empty,
}
use fresh_stackable_data_pla.Text.{txt, strip, starts_with}
use fresh_stackable_data_pla.Text.Number.{parse_int}
use fresh_stackable_data_pla.Effect.{Result, ok, err, http}

abbrev pub Bytes : Type 0
Bytes = List ℕ

-- `hmac`, `base64` and `str.encode` of Python's standard library.
pub record Codec : Type 0 where
  pub hmac_sha256 : Bytes → Bytes → Bytes
  pub b64decode : Bytes → Option Bytes
  pub urlsafe_b64decode : Bytes → Option Bytes
  pub encode : Text → Bytes

-- The environment that the service reads at its start.
pub record Config : Type 0 where
  pub om_webhook_secret : Text
  pub replay_window_seconds : ℕ

pub data Kind : Type 0 where
  hex base64 : Kind

unfoldable pub hex_value : ℕ → Option ℕ
hex_value c =
    if leb b'0' c && leb c b'9'
    then some (c - b'0')
    else if leb b'a' c && leb c b'f'
    then some (c - b'a' + 10)
    else if leb b'A' c && leb c b'F'
    then some (c - b'A' + 10)
    else none

unfoldable pub is_hex : ℕ → Bool
unfolding hex_value
is_hex c = elim (hex_value c) [ none ↦ false | some _ ↦ true ]

-- `bytes.fromhex(s)`; none is a `ValueError`.
unfoldable pub fromhex : Text → Option Bytes
unfolding hex_value
fromhex [] = some []
fromhex (c ∷ []) = none
fromhex (c ∷ d ∷ s) = elim (hex_value c) [
  | none ↦ none
  | some h ↦ elim (hex_value d) [
    | none ↦ none
    | some l ↦ elim (fromhex s) [ none ↦ none | some r ↦ some ((h * 16 + l) ∷ r) ]
  ]
]

-- `"=" * (-len(s) % 4)`
unfoldable pub padding : Text → Text
padding s = elim ((4 - length s % 4) % 4) [
  | zero ↦ []
  | suc zero ↦ txt "="
  | suc (suc zero) ↦ txt "=="
  | _ ↦ txt "==="
]

-- A decoder's result counts if it has the length of a SHA-256 digest.
digest_of : Option Bytes → Option Bytes
digest_of none = none
digest_of (some raw) = if length raw == 32 then some raw else none

-- `s.split("=", 1)[1]`, where the text has the separator.
unfoldable pub after_first : ℕ → Text → Text
after_first sep [] = []
after_first sep (c ∷ s) = if c == sep then s else after_first sep s

-- `abs(time.time() - ts)` in microseconds, for the sign and the magnitude of `ts` in seconds.
unfoldable pub drift : ℕ → Bool → ℕ → ℕ
drift now true ts = now + ts * 1000000
drift now false ts = (now - ts * 1000000) + (ts * 1000000 - now)

module _ (c : Codec) where
  decode_base64 : Text → Option Bytes
  unfolding digest_of
  decode_base64 padded = elim (digest_of (c.b64decode (c.encode padded))) [
    | some raw ↦ some raw
    | none ↦ digest_of (c.urlsafe_b64decode (c.encode padded))
  ]

  -- What is tried where the text is no hexadecimal digest.
  or_base64 : Text → Option (Bytes × Kind)
  unfolding decode_base64
  or_base64 s = elim (decode_base64 (s ++ padding s)) [
    | none ↦ none
    | some raw ↦ some (raw, base64)
  ]

  decode_stripped : Text → Option (Bytes × Kind)
  decode_stripped s =
      if length s == 64 && every is_hex s
      then (elim (fromhex s) [ some raw ↦ some (raw, hex) | none ↦ or_base64 s ])
      else or_base64 s

  unfoldable pub decode_received_signature : Text → Option (Bytes × Kind)
  unfolding decode_stripped or_base64
  decode_received_signature received = decode_stripped (strip received)

  -- The check of the legacy scheme, which signs `timestamp.body`.
  unfoldable pub verify_legacy : Config → ℕ → Bytes → Text → Bytes → Result (Unit {0})
  verify_legacy g now raw_body timestamp received_raw = elim (parse_int timestamp) [
    | none ↦ err (http 401 "Ongeldig X-OM-Timestamp")
    | some (negative, ts) ↦
        if ltb (g.replay_window_seconds * 1000000) (drift now negative ts)
        then err (http 401 "Timestamp buiten window")
        else if c.hmac_sha256 (c.encode g.om_webhook_secret)
              (c.encode (timestamp ++ txt ".") ++ raw_body)
            == received_raw
        then ok tt
        else err (http 401 "HMAC-signature klopt niet")
  ]

  -- The check of the digest that the header carries.
  unfoldable pub verify_digest : Config → ℕ → Bytes → Text → Bytes → Result (Unit {0})
  unfolding verify_legacy
  verify_digest g now raw_body timestamp received_raw =
      if c.hmac_sha256 (c.encode g.om_webhook_secret) raw_body == received_raw
      then ok tt
      else if is_empty timestamp
      then err (http 401 "HMAC-signature klopt niet")
      else verify_legacy g now raw_body timestamp received_raw

  verify_decoded : Config → ℕ → Bytes → Text → Option (Bytes × Kind) → Result (Unit {0})
  unfolding verify_digest
  verify_decoded g now raw_body timestamp none = err (http 401 "X-OM-Signature niet decodeerbaar")
  verify_decoded g now raw_body timestamp (some (received_raw, sig_kind)) =
      verify_digest g now raw_body timestamp received_raw

  -- `now` is the clock in microseconds.
  unfoldable pub verify_signature : Config → ℕ → Bytes → Text → Text → Result (Unit {0})
  unfolding verify_decoded
  verify_signature g now raw_body signature_header timestamp =
      if is_empty g.om_webhook_secret
      then err (http 500 "OM_WEBHOOK_SECRET niet geconfigureerd")
      else if is_empty signature_header || not (starts_with signature_header (txt "sha256="))
      then err (http 401 "Ontbrekende of ongeldige X-OM-Signature")
      else verify_decoded g now raw_body timestamp
          (decode_received_signature (after_first b'=' signature_header))
