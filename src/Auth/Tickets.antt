-- ===== src/Auth/Tickets.antt =====
-- apps/api/src/auth/ticket-service.ts. What stands outside the service is a parameter: `sign` is the
-- HMAC of an encoded payload under the service's secret, `encode` the base64url of the payload's
-- JSON, and `decode` its inverse followed by the schema's check (`none` where either refuses). A
-- method that reads the clock takes its readings, in order.
pub mod SingleUse
pub mod Minting
pub mod Tests
use exaint.Base.{
  ℕ, zero, suc, ◌+◌, Bool, true, false, not, ◌&&◌, ◌||◌, Option, none, some, List, [], ◌∷◌, ◌++◌,
  ltb, leb, ◌==◌, if◌then◌else◌, String, keep_if, ◌≡◌, refl, ◌↔◌, arith, ap₂, length, Result, ok,
  err,
}
use exaint.Base.Keys.{Eq}
use exaint.Base.Map
use exaint.Base.Map.{Map}
use exaint.Protocol.Decimal.{Text, split_dot}

pub data TicketRejection : Type 0 where
  unauthorized ticket_expired : TicketRejection

pub record TicketPayload : Type 0 where
  pub sub : String
  pub iat : ℕ
  pub exp : ℕ

pub record MintedTicket : Type 0 where
  pub ticket : Text
  pub expires_at : ℕ
  pub subject : String

-- The bytes of two signatures, compared.
unfoldable pub same_bytes : Text → Text → Bool
same_bytes [] [] = true
same_bytes [] (c ∷ t) = false
same_bytes (c ∷ s) [] = false
same_bytes (c ∷ s) (d ∷ t) = (c == d) && same_bytes s t

pub same_bytes_iff : (s t : Text) → (same_bytes s t ≡ true) ↔ (s ≡ t)
unfolding same_bytes
same_bytes_iff [] [] = ground arith
same_bytes_iff [] (c ∷ t) = ground arith
same_bytes_iff (c ∷ s) [] = ground arith
same_bytes_iff (c ∷ s) (d ∷ t) = ground (arith, same_bytes_iff s t)

instance abbrev pub text_eq : Eq Text
text_eq = record { beq = same_bytes; beq_iff = same_bytes_iff }

-- The ids of the tickets taken, with the time at which each expires.
abbrev pub Consumed : Type 0
Consumed = Map Text ℕ

unfoldable pub evict_expired : ℕ → Consumed → Consumed
evict_expired now consumed = keep_if (λ e. ltb now e.1) consumed

-- A payload whose signature is right.
abbrev pub admit :
    Text → Option TicketPayload → ℕ → Consumed → Result TicketRejection TicketPayload × Consumed
admit encoded none now consumed = (err unauthorized, consumed)
admit encoded (some payload) now consumed =
    if leb payload.exp now
    then (err ticket_expired, consumed)
    else if Map.has encoded consumed
    then (err ticket_expired, consumed)
    else (ok payload, Map.set encoded payload.exp consumed)

module _ (sign : Text → Text) (encode : TicketPayload → Text)
    (decode : Text → Option TicketPayload) where
  unfoldable pub mint : ℕ → String → ℕ → MintedTicket
  mint ttl_ms subject issued_at =
      let expires_at = issued_at + ttl_ms in
      let encoded = encode (record { sub = subject; iat = issued_at; exp = expires_at }) in
      record { ticket = encoded ++ b'.' ∷ sign encoded; expires_at = expires_at; subject = subject }

  -- A ticket cut at its first dot: `separator <= 0`, no dot included, or nothing behind it, is refused.
  abbrev pub verify_parts :
      Text → Option Text → ℕ → Consumed → Result TicketRejection TicketPayload × Consumed
  verify_parts encoded none now consumed = (err unauthorized, consumed)
  verify_parts [] (some signature) now consumed = (err unauthorized, consumed)
  verify_parts (c ∷ encoded) (some []) now consumed = (err unauthorized, consumed)
  verify_parts (c ∷ encoded) (some (d ∷ signature)) now consumed =
      if not (same_bytes (sign (c ∷ encoded)) (d ∷ signature))
      then (err unauthorized, consumed)
      else admit (c ∷ encoded) (decode (c ∷ encoded)) now consumed

  -- `none` is a missing ticket. `evicted_at` is the reading of the clock that evicts, `now` the later
  -- one that decides.
  unfoldable pub verify_and_consume :
      Option Text → ℕ → ℕ → Consumed → Result TicketRejection TicketPayload × Consumed
  unfolding evict_expired
  verify_and_consume none evicted_at now consumed =
      (err unauthorized, evict_expired evicted_at consumed)
  verify_and_consume (some ticket) evicted_at now consumed =
      let (encoded, signature) = split_dot ticket in
      verify_parts encoded signature now (evict_expired evicted_at consumed)

unfoldable pub consumed_count : ℕ → Consumed → ℕ × Consumed
unfolding evict_expired
consumed_count now consumed = (length (evict_expired now consumed), evict_expired now consumed)
