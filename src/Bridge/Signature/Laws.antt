-- ===== src/Bridge/Signature/Laws.antt =====
-- Which requests `_verify_signature` accepts, and with which status it refuses the others.
use Prim.{tt}
use fresh_stackable_data_pla.Prelude.{
  ℕ, ◌+◌, ◌-◌, ◌*◌, ◌/◌, ◌%◌, ◌≤◌, ◌<◌, ◌≡◌, ◌≢◌, refl, ◌⊎◌, inl, inr, Bool, true, false, Option,
  none, some, [], ◌∷◌, ◌++◌, Text, nat_eq, text_eq, arith, length, All, every, if◌then◌else◌, ltb,
  Option-cases, is_empty,
}
use fresh_stackable_data_pla.Text.{txt, starts_with, is_space}
use fresh_stackable_data_pla.Text.Laws.{strip_of_no_space, starts_with-append}
use fresh_stackable_data_pla.Text.Number.{parse_int}
use fresh_stackable_data_pla.Effect.{status_of, Error, ok, err}
use fresh_stackable_data_pla.Bridge.Signature.{
  Bytes, Codec, Config, Kind, hex, hex_value, is_hex, fromhex, after_first, drift,
  decode_received_signature, verify_legacy, verify_digest, verify_decoded, verify_signature,
}

module _ (c : Codec) where
  -- The digest of the body alone, or of timestamp and body with a timestamp in the window.
  abbrev pub IsSigned : Config → ℕ → Bytes → Text → Bytes → Type 0
  IsSigned g now body timestamp raw =
      (c.hmac_sha256 (c.encode g.om_webhook_secret) body ≡ raw)
      ⊎ ((negative : Bool) × (ts : ℕ) × (parse_int timestamp ≡ some (negative, ts))
          × (drift now negative ts ≤ g.replay_window_seconds * 1000000)
          × (c.hmac_sha256 (c.encode g.om_webhook_secret) (c.encode (timestamp ++ txt ".") ++ body)
              ≡ raw))

  legacy_fields :
      (g : Config) (now : ℕ) (body : Bytes) (timestamp : Text) (raw : Bytes) (negative : Bool)
      (ts : ℕ)
      → parse_int timestamp ≡ some (negative, ts)
      → verify_legacy c g now body timestamp raw ≡ ok tt
      → (drift now negative ts ≤ g.replay_window_seconds * 1000000)
        × (c.hmac_sha256 (c.encode g.om_webhook_secret) (c.encode (timestamp ++ txt ".") ++ body)
            ≡ raw)
  unfolding verify_legacy
  legacy_fields g now body timestamp raw negative ts e h = ground arith

  legacy_parsed :
      (g : Config) (now : ℕ) (body : Bytes) (timestamp : Text) (raw : Bytes)
      → verify_legacy c g now body timestamp raw ≡ ok tt
      → parse_int timestamp ≢ none
  unfolding verify_legacy
  legacy_parsed g now body timestamp raw h e = ground arith

  verify_legacy_sound :
      (g : Config) (now : ℕ) (body : Bytes) (timestamp : Text) (raw : Bytes)
      → verify_legacy c g now body timestamp raw ≡ ok tt
      → IsSigned g now body timestamp raw
  verify_legacy_sound g now body timestamp raw h = elim (Option-cases (parse_int timestamp)) [
    | inl e ↦ absurd (legacy_parsed g now body timestamp raw h e)
    | inr ((negative, ts), e) ↦
        let (recent, signed) = legacy_fields g now body timestamp raw negative ts e h in
        inr (negative, ts, e, recent, signed)
  ]

  verify_digest_sound :
      (g : Config) (now : ℕ) (body : Bytes) (timestamp : Text) (raw : Bytes)
      → verify_digest c g now body timestamp raw ≡ ok tt
      → IsSigned g now body timestamp raw
  unfolding verify_digest
  verify_digest_sound g now body timestamp raw h =
      ground (arith, verify_legacy_sound g now body timestamp raw)

  module _ (g : Config) (now : ℕ) (body : Bytes) (header timestamp : Text) where
    verified_header :
        verify_signature c g now body header timestamp ≡ ok tt
        → (g.om_webhook_secret ≢ [])
          × (starts_with header (txt "sha256=") ≡ true)
          × (decode_received_signature c (after_first b'=' header) ≢ none)
    unfolding verify_signature
    verified_header h = ground arith

    verified_digest :
        (raw : Bytes) (kind : Kind)
        → verify_signature c g now body header timestamp ≡ ok tt
        → decode_received_signature c (after_first b'=' header) ≡ some (raw, kind)
        → verify_digest c g now body timestamp raw ≡ ok tt
    unfolding verify_signature
    verified_digest raw kind h e = ground arith

  -- An accepted request has a configured secret, the header's prefix, and a digest that decodes
  -- to the HMAC of the body, or to that of timestamp and body with a timestamp that lies within
  -- the replay window of the clock.
  pub verify_signature_sound :
      (g : Config) (now : ℕ) (body : Bytes) (header timestamp : Text)
      → verify_signature c g now body header timestamp ≡ ok tt
      → (g.om_webhook_secret ≢ [])
        × (starts_with header (txt "sha256=") ≡ true)
        × (raw : Bytes) × (kind : Kind) × (decode_received_signature c (after_first b'=' header)
            ≡ some (raw, kind))
        × IsSigned g now body timestamp raw
  verify_signature_sound g now body header timestamp h =
      let (secret, prefix, decoded) = verified_header g now body header timestamp h in
      elim (Option-cases (decode_received_signature c (after_first b'=' header))) [
        | inl e ↦ absurd (decoded e)
        | inr ((raw, kind), e) ↦ (
          secret,
          prefix,
          raw,
          kind,
          e,
          verify_digest_sound g now body timestamp raw
              (verified_digest g now body header timestamp raw kind h e),
        )
      ]

  verify_legacy_status :
      (g : Config) (now : ℕ) (body : Bytes) (timestamp : Text) (raw : Bytes) (e : Error)
      → verify_legacy c g now body timestamp raw ≡ err e
      → status_of e ≡ 401
  unfolding verify_legacy
  verify_legacy_status g now body timestamp raw e h = elim (Option-cases (parse_int timestamp)) [
    | inl n ↦ ground arith
    | inr ((negative, ts), n) ↦ let h' = rw (n, verify_legacy) at h in ground arith
  ]

  verify_decoded_status :
      (g : Config) (now : ℕ) (body : Bytes) (timestamp : Text) (d : Option (Bytes × Kind))
      (e : Error)
      → verify_decoded c g now body timestamp d ≡ err e
      → status_of e ≡ 401
  unfolding verify_decoded
  verify_decoded_status g now body timestamp none e h = ground arith
  verify_decoded_status g now body timestamp (some (raw, kind)) e h =
      ground (arith, verify_legacy_status g now body timestamp raw e)

  -- Every refusal is a 401, but for a service without a secret, which answers 500.
  pub verify_signature_status :
      (g : Config) (now : ℕ) (body : Bytes) (header timestamp : Text) (e : Error)
      → verify_signature c g now body header timestamp ≡ err e
      → status_of e ≡ (if is_empty g.om_webhook_secret then 500 else 401)
  unfolding verify_signature
  verify_signature_status g now body header timestamp e h = ground (
    arith,
    verify_decoded_status g now body timestamp
        (decode_received_signature c (after_first b'=' header)) e,
  )

-- Lower-case hexadecimal, as `hexdigest` writes it.
pub hex_digit : ℕ → ℕ
hex_digit n = if ltb n 10 then b'0' + n else b'a' + (n - 10)

pub to_hex : Bytes → Text
to_hex [] = []
to_hex (b ∷ bs) = hex_digit (b / 16) ∷ hex_digit (b % 16) ∷ to_hex bs

hex_value-hex_digit : (n : ℕ) → n < 16 → hex_value (hex_digit n) ≡ some n
unfolding hex_value hex_digit
hex_value-hex_digit n h = ground arith

-- Reading the hexadecimal digits of bytes gives the bytes back.
pub fromhex-to_hex : (bs : Bytes) → All (λ b. b < 256) bs → fromhex (to_hex bs) ≡ some bs
unfolding fromhex to_hex
fromhex-to_hex [] h = refl
fromhex-to_hex (b ∷ bs) (hb, h) = ground (
  arith,
  fromhex-to_hex bs h,
  hex_value-hex_digit (b / 16) (omega arith),
  hex_value-hex_digit (b % 16) (omega arith),
)

every-is_hex-to_hex : (bs : Bytes) → All (λ b. b < 256) bs → every is_hex (to_hex bs) ≡ true
unfolding to_hex every is_hex
every-is_hex-to_hex [] h = refl
every-is_hex-to_hex (b ∷ bs) (hb, h) = ground (
  arith,
  every-is_hex-to_hex bs h,
  hex_value-hex_digit (b / 16) (omega arith),
  hex_value-hex_digit (b % 16) (omega arith),
)

length-to_hex : (bs : Bytes) → length (to_hex bs) ≡ 2 * length bs
unfolding to_hex
length-to_hex [] = refl
length-to_hex (b ∷ bs) = omega (arith, length-to_hex bs)

hex_digit_no_space : (n : ℕ) → n < 16 → is_space (hex_digit n) ≡ false
unfolding hex_digit is_space
hex_digit_no_space n h = ground arith

to_hex_no_space : (bs : Bytes) → All (λ b. b < 256) bs → All (λ c. is_space c ≡ false) (to_hex bs)
unfolding to_hex
to_hex_no_space [] h = tt
to_hex_no_space (b ∷ bs) (hb, h) = (
  hex_digit_no_space (b / 16) (omega arith),
  (hex_digit_no_space (b % 16) (omega arith), to_hex_no_space bs h),
)

-- A digest in hexadecimal decodes to itself.
pub decode-to_hex :
    (c : Codec) (bs : Bytes)
    → All (λ b. b < 256) bs
    → length bs ≡ 32
    → decode_received_signature c (to_hex bs) ≡ some (bs, hex)
unfolding decode_received_signature
decode-to_hex c bs h n =
    rw (strip_of_no_space (to_hex bs) (to_hex_no_space bs h))
      (ground (arith, fromhex-to_hex bs h, every-is_hex-to_hex bs h, length-to_hex bs))

-- A request that carries the hexadecimal HMAC-SHA256 of its body is accepted, whatever its
-- timestamp, if the secret is set and the digest is 32 bytes.
pub verify_signature-hex :
    (c : Codec) (g : Config) (now : ℕ) (body : Bytes) (timestamp : Text)
    → g.om_webhook_secret ≢ []
    → All (λ b. b < 256) (c.hmac_sha256 (c.encode g.om_webhook_secret) body)
    → length (c.hmac_sha256 (c.encode g.om_webhook_secret) body) ≡ 32
    → verify_signature c g now body
        (txt "sha256=" ++ to_hex (c.hmac_sha256 (c.encode g.om_webhook_secret) body))
        timestamp
      ≡ ok tt
unfolding verify_signature after_first txt
verify_signature-hex c g now body timestamp secret h n = ground (
  arith,
  decode-to_hex c (c.hmac_sha256 (c.encode g.om_webhook_secret) body) h n,
  starts_with-append (txt "sha256=") (to_hex (c.hmac_sha256 (c.encode g.om_webhook_secret) body)),
)
