-- ===== src/Auth/Tickets/Minting.antt =====
-- ticket-service.ts: what is minted is accepted.
use exaint.Base.{
  ℕ, ◌+◌, ◌<◌, true, false, Option, some, [], ◌∷◌, ◌++◌, leb, ◌==◌, String, ◌≡◌, refl, ◌∙◌, ap,
  arith, Result, ok, All, length,
}
use exaint.Base.Map
use exaint.Protocol.Decimal.{Text, split_dot}
use exaint.Auth.Tickets.{
  TicketPayload, TicketRejection, Consumed, evict_expired, mint, verify_and_consume, verify_parts,
  admit, same_bytes, text_eq,
}

module _ (sign : Text → Text) (encode : TicketPayload → Text)
    (decode : Text → Option TicketPayload) where
  split_dot-dot :
      (w f : Text) → All (λ c. (c == b'.') ≡ false) w → split_dot (w ++ b'.' ∷ f) ≡ (w, some f)
  unfolding split_dot
  split_dot-dot [] f h = refl
  split_dot-dot (c ∷ w) f h = ground (arith, h.0, split_dot-dot w f h.1)

  same_bytes_refl : (s : Text) → same_bytes s s ≡ true
  same_bytes_refl s = (text_eq.beq_iff s s).1 refl

  signed_parts :
      (encoded f : Text) (now : ℕ) (m : Consumed)
      → 0 < length encoded
      → 0 < length f
      → sign encoded ≡ f
      → verify_parts sign encode decode encoded (some f) now m
        ≡ admit encoded (decode encoded) now m
  signed_parts [] f now m h k e = absurd (omega arith)
  signed_parts (c ∷ w) [] now m h k e = absurd (omega arith)
  signed_parts (c ∷ w) (d ∷ f) now m h k e = rw (e, same_bytes_refl (d ∷ f)) refl

  -- The ticket that `mint` makes for a payload is accepted, with that payload, while its time is not
  -- over and the payload has not been taken. Of the code outside it asks that `decode` undoes `encode`
  -- on this payload, that the encoded payload is not empty and, as base64url, has no dot, and that a
  -- signature is not empty.
  pub mint-verify :
      (ttl_ms issued_at e n : ℕ) (subject : String) (m : Consumed)
      → let p : TicketPayload = record {
        sub = subject;
        iat = issued_at;
        exp = issued_at + ttl_ms;
      } in
        decode (encode p) ≡ some p
        → All (λ c. (c == b'.') ≡ false) (encode p)
        → 0 < length (encode p)
        → 0 < length (sign (encode p))
        → n < issued_at + ttl_ms
        → Map.has (encode p) (evict_expired e m) ≡ false
        → let t = mint sign encode decode ttl_ms subject issued_at in
          (t.expires_at ≡ issued_at + ttl_ms)
          × ((verify_and_consume sign encode decode (some t.ticket) e n m).0 ≡ ok p)
  unfolding mint verify_and_consume
  mint-verify ttl_ms issued_at e n subject m hd hc he hs l fresh =
      let p : TicketPayload = record { sub = subject; iat = issued_at; exp = issued_at + ttl_ms } in
      let live : leb (issued_at + ttl_ms) n ≡ false = ground arith in
      (
        refl,
        rw (split_dot-dot (encode p) (sign (encode p)) hc) (
            ap (λ (r : Result TicketRejection TicketPayload × Consumed). r.0)
              (signed_parts (encode p) (sign (encode p)) n (evict_expired e m) he hs refl)
            ∙ rw (hd, live, fresh) refl),
      )
