-- ===== src/Auth/Tickets/SingleUse.antt =====
-- ticket-service.ts: a ticket minted is accepted, and accepted once.
use exaint.Base.{
  ℕ, ◌≤◌, ◌<◌, Option, none, some, List, [], ◌∷◌, ◌++◌, ltb, keep_if, ◌≡◌, ◌≢◌, refl, subst, arith,
  Result, ok, err, Bool-cases, inl, inr, ◌⊎◌,
}
use exaint.Base.Map
use exaint.Base.Map.{Map, get-set, has-get}
use exaint.Protocol.Decimal.{Text, split_dot}
use exaint.Auth.Tickets.{
  TicketPayload, TicketRejection, unauthorized, ticket_expired, Consumed, evict_expired,
  verify_and_consume, verify_parts, admit, same_bytes, text_eq,
}

get-evict_expired :
    (e : Text) (now x : ℕ) (m : Consumed)
    → Map.get e m ≡ some x
    → now < x
    → Map.get e (evict_expired now m) ≡ some x
unfolding Map.get evict_expired keep_if
get-evict_expired e now x [] h l = cc
get-evict_expired e now x ((k, y) ∷ m) h l = ground (arith, get-evict_expired e now x m)

module _ (sign : Text → Text) (encode : TicketPayload → Text)
    (decode : Text → Option TicketPayload) where
  -- The ticket with this payload was taken, and cannot be taken again from `now` on.
  pub record Spent (encoded : Text) (p : TicketPayload) (now : ℕ) (m : Consumed) : Type 0 where
    means : decode encoded ≡ some p
    kept : (p.exp ≤ now) ⊎ (Map.get encoded m ≡ some p.exp)

  evict-Spent :
      {encoded : Text} {p : TicketPayload} {before : ℕ} {m : Consumed} (now : ℕ)
      → before ≤ now
      → Spent encoded p before m
      → Spent encoded p now (evict_expired now m)
  evict-Spent {encoded} {p} {before} {m} now h s = record {
    means = s.means;
    kept = elim s.kept [
      | inl old ↦ inl (omega arith)
      | inr held ↦ elim (Bool-cases (ltb now p.exp)) [
        | inl live ↦ inr (get-evict_expired encoded now p.exp m held (ground arith))
        | inr dead ↦ inl (ground arith)
      ]
    ];
  }

  admit-Spent :
      {encoded : Text} {p : TicketPayload} {before : ℕ} {m : Consumed} (other : Text)
      (o : Option TicketPayload) (now : ℕ)
      → before ≤ now
      → Spent encoded p before m
      → Spent encoded p now (admit other o now m).1
  admit-Spent {encoded} {p} {before} {m} other none now h s = record {
    means = s.means;
    kept = ground (arith, s.kept);
  }
  admit-Spent {encoded} {p} {before} {m} other (some q) now h s = record {
    means = s.means;
    kept = ground (
      arith,
      s.kept,
      get-set other encoded q.exp m,
      has-get other m,
      text_eq.beq_iff other encoded,
    );
  }

  -- A spent payload is not taken.
  admit_refused :
      {encoded : Text} {p : TicketPayload} {m : Consumed} (now : ℕ)
      → Spent encoded p now m
      → (admit encoded (decode encoded) now m).0 ≡ err ticket_expired
  admit_refused {encoded} {p} {m} now s = rw (s.means) (ground (arith, s.kept, has-get encoded m))

  parts-Spent :
      {e : Text} {p : TicketPayload} {before : ℕ} {m : Consumed} (encoded : Text)
      (signature : Option Text) (now : ℕ)
      → before ≤ now
      → Spent e p before m
      → Spent e p now (verify_parts sign encode decode encoded signature now m).1
  parts-Spent encoded none now h s = record { means = s.means; kept = ground (arith, s.kept) }
  parts-Spent [] (some f) now h s = record { means = s.means; kept = ground (arith, s.kept) }
  parts-Spent (c ∷ w) (some []) now h s = record { means = s.means; kept = ground (arith, s.kept) }
  parts-Spent (c ∷ w) (some (d ∷ f)) now h s =
      elim (Bool-cases (same_bytes (sign (c ∷ w)) (d ∷ f))) [
        | inl right ↦ rw right (admit-Spent (c ∷ w) (decode (c ∷ w)) now h s)
        | inr wrong ↦ rw wrong (record { means = s.means; kept = ground (arith, s.kept) })
      ]

  parts_refused :
      {p : TicketPayload} {m : Consumed} (encoded : Text) (signature : Option Text) (now : ℕ)
      → Spent encoded p now m
      → (reason : TicketRejection) × ((verify_parts sign encode decode encoded signature now m).0
          ≡ err reason)
  parts_refused encoded none now s = (unauthorized, refl)
  parts_refused [] (some f) now s = (unauthorized, refl)
  parts_refused (c ∷ w) (some []) now s = (unauthorized, refl)
  parts_refused (c ∷ w) (some (d ∷ f)) now s =
      elim (Bool-cases (same_bytes (sign (c ∷ w)) (d ∷ f))) [
        | inl right ↦ (ticket_expired, rw right (admit_refused now s))
        | inr wrong ↦ (unauthorized, rw wrong refl)
      ]

  admit_taken :
      (encoded : Text) (o : Option TicketPayload) (now : ℕ) (m : Consumed) (p : TicketPayload)
      → decode encoded ≡ o
      → (admit encoded o now m).0 ≡ ok p
      → Spent encoded p now (admit encoded o now m).1
  admit_taken encoded none now m p e h = cc
  admit_taken encoded (some q) now m p e h = record {
    means = ground (arith, e);
    kept = ground (arith, get-set encoded encoded q.exp m, text_eq.beq_iff encoded encoded);
  }

  parts_taken :
      (encoded : Text) (signature : Option Text) (now : ℕ) (m : Consumed) (p : TicketPayload)
      → (verify_parts sign encode decode encoded signature now m).0 ≡ ok p
      → Spent encoded p now (verify_parts sign encode decode encoded signature now m).1
  parts_taken encoded none now m p = λ h. cc
  parts_taken [] (some f) now m p = λ h. cc
  parts_taken (c ∷ w) (some []) now m p = λ h. cc
  parts_taken (c ∷ w) (some (d ∷ f)) now m p =
      elim (Bool-cases (same_bytes (sign (c ∷ w)) (d ∷ f))) [
        | inl right ↦ rw right (λ h. admit_taken (c ∷ w) (decode (c ∷ w)) now m p refl h)
        | inr wrong ↦ rw wrong (λ h. cc)
      ]

not_both :
    (r : Result TicketRejection TicketPayload) (reason : TicketRejection) (q : TicketPayload)
    → r ≡ err reason
    → r ≡ ok q
    → ⊥
not_both r reason q e f = absurd (cc)

-- A call of `verifyAndConsume`, with the two readings of the clock that it takes.
pub record Attempt : Type 0 where
  pub ticket : Option Text
  pub evicted_at : ℕ
  pub now : ℕ

-- The clock does not run backwards: neither between two readings of one call nor from call to call.
abbrev pub InOrder : ℕ → List Attempt → Type 0
InOrder now [] = Unit
InOrder now (a ∷ rest) = (now ≤ a.evicted_at) × (a.evicted_at ≤ a.now) × InOrder a.now rest

module _ (sign : Text → Text) (encode : TicketPayload → Text)
    (decode : Text → Option TicketPayload) where
  unfoldable pub attempt : Attempt → Consumed → Result TicketRejection TicketPayload × Consumed
  attempt a m = verify_and_consume sign encode decode a.ticket a.evicted_at a.now m

  unfoldable pub attempts : List Attempt → Consumed → Consumed
  attempts [] m = m
  attempts (a ∷ rest) m = attempts rest (attempt a m).1

  verify-Spent :
      {e : Text} {p : TicketPayload} {before : ℕ} {m : Consumed} (ticket : Option Text)
      (evicted_at now : ℕ)
      → before ≤ evicted_at
      → evicted_at ≤ now
      → Spent sign encode decode e p before m
      → Spent sign encode decode e p now
          (verify_and_consume sign encode decode ticket evicted_at now m).1
  unfolding verify_and_consume
  verify-Spent none evicted_at now h k s =
      let s' = evict-Spent sign encode decode evicted_at h s in
      record { means = s'.means; kept = ground (arith, s'.kept) }
  verify-Spent (some t) evicted_at now h k s =
      parts-Spent sign encode decode (split_dot t).0 (split_dot t).1 now k
        (evict-Spent sign encode decode evicted_at h s)

  attempts-Spent :
      {e : Text} {p : TicketPayload} {before : ℕ} {m : Consumed} (rest : List Attempt)
      (final : Attempt)
      → InOrder before (rest ++ final ∷ [])
      → Spent sign encode decode e p before m
      → (last : ℕ) × (last ≤ final.evicted_at)
        × (final.evicted_at ≤ final.now)
        × Spent sign encode decode e p last (attempts rest m)
  unfolding attempts attempt
  attempts-Spent {before = before} [] final o s = (before, o.0, o.1, s)
  attempts-Spent {m = m} (a ∷ rest) final o s =
      attempts-Spent {m = (attempt a m).1} rest final o.2
        (verify-Spent a.ticket a.evicted_at a.now o.0 o.1 s)

  -- The payload part of a ticket.
  abbrev pub payload_part : Text → Text
  payload_part ticket = (split_dot ticket).0

  -- Once a ticket is accepted, no ticket with the same payload part is accepted again: whatever
  -- calls come between, with whatever tickets, as long as the clock does not run backwards.
  pub accepted_once :
      (t t' : Text) (e n e' n' : ℕ) (p q : TicketPayload) (m : Consumed) (between : List Attempt)
      → InOrder n (between ++ record { ticket = some t'; evicted_at = e'; now = n' } ∷ [])
      → (verify_and_consume sign encode decode (some t) e n m).0 ≡ ok p
      → payload_part t ≡ payload_part t'
      → let m' = attempts between (verify_and_consume sign encode decode (some t) e n m).1 in
        (verify_and_consume sign encode decode (some t') e' n' m').0 ≢ ok q
  unfolding verify_and_consume
  accepted_once t t' e n e' n' p q m between o h same =
      let s : Spent sign encode decode (payload_part t) p n
          (verify_and_consume sign encode decode (some t) e n m).1 =
        parts_taken sign encode decode (payload_part t) (split_dot t).1 n (evict_expired e m) p h in
      let (last, later, now, s₁) =
        attempts-Spent between (record { ticket = some t'; evicted_at = e'; now = n' }) o
          (subst
            (λ x.
              Spent sign encode decode x p n
                (verify_and_consume sign encode decode (some t) e n m).1)
            same s) in
      let s₂ = evict-Spent sign encode decode e' later s₁ in
      let (reason, refused) =
        parts_refused sign encode decode (payload_part t') (split_dot t').1 n'
          (record { means = s₂.means; kept = ground (arith, s₂.kept) }) in
      λ taken. not_both _ reason q refused taken
