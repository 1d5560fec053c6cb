-- ===== src/Auth/Tickets/Tests.antt =====
-- Tickets under a stand-in for the signature and the encoding.
use exaint.Base.{◌≡◌, ◌≢◌, refl, none, some, [], ◌∷◌, arith, Option, ok, keep_if}
use exaint.Base.Map
use exaint.Protocol.Decimal.{Text, split_dot}
use exaint.Auth.Tickets.{
  TicketPayload, mint, verify_and_consume, text_eq, evict_expired, same_bytes,
}
use exaint.Auth.Tickets.SingleUse.{attempts, accepted_once}
use exaint.Auth.Tickets.Minting.{mint-verify}

abbrev sign : Text → Text
sign s = b'S' ∷ s

abbrev payload : TicketPayload
payload = record { sub = "anon"; iat = 100; exp = 160 }

abbrev encode : TicketPayload → Text
encode p = b'P' ∷ []

abbrev decode : Text → Option TicketPayload
decode s = some payload

abbrev ticket : Text
ticket = b'P' ∷ b'.' ∷ b'S' ∷ b'P' ∷ []

taken : (verify_and_consume sign encode decode (some ticket) 110 110 []).0 ≡ ok payload
unfolding verify_and_consume split_dot same_bytes evict_expired keep_if Map.has
taken = refl

accepted_once_example :
    let m' =
      attempts sign encode decode
        (record { ticket = none; evicted_at = 120; now = 121 } ∷ [])
        (verify_and_consume sign encode decode (some ticket) 110 110 []).1 in
    (verify_and_consume sign encode decode (some ticket) 130 130 m').0 ≢ ok payload
accepted_once_example =
    accepted_once sign encode decode ticket ticket 110 110 130 130 payload payload []
      (record { ticket = none; evicted_at = 120; now = 121 } ∷ [])
      (omega arith, omega arith, (omega arith, omega arith, tt)) taken refl

mint-verify_example :
    let t = mint sign encode decode 60 "anon" 100 in
    (t.expires_at ≡ 160)
    × ((verify_and_consume sign encode decode (some t.ticket) 110 120 []).0 ≡ ok payload)
unfolding Map.has evict_expired keep_if
mint-verify_example =
    mint-verify sign encode decode 60 100 110 120 "anon" [] refl (refl, tt) (omega arith)
      (omega arith) (omega arith) refl
