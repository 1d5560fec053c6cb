-- ===== src/Market/OrderBook/Chain.antt =====
-- A chain of deltas replayed up to a sequence number.
use exaint.Base.{
  ℕ, ◌+◌, ◌≤◌, ◌≡◌, refl, sym, ◌∙◌, ap, subst, append_assoc, eq_of_some, >>=-eq-some, true, false,
  Option, none, some, List, [], ◌∷◌, ◌++◌, leb, if◌then◌else◌, arith, ◌>>=◌, Option-cases, inl, inr,
}
use exaint.Market.Events.{DomainBookDelta}
use exaint.Market.OrderBook.{OrderBook, flush_delta}
use exaint.Market.OrderBook.History.{Copy, receive, Continues}
use exaint.Market.OrderBook.Run.{Command, flushes, run, step, receive_all, Chain, stop, link}

-- The copies after the deltas up to sequence `n`.
pub state_at : List (Option DomainBookDelta) → Copy → ℕ → Copy
state_at [] c n = c
state_at (none ∷ ds) c n = state_at ds c n
state_at (some d ∷ ds) c n =
    let later = state_at ds (receive (some d) c) n in if leb n d.previous_sequence then c else later

-- The delta is among those emitted.
pub data Emitted (d : DomainBookDelta) : List (Option DomainBookDelta) → Type 0 where
  now : {ds : List (Option DomainBookDelta)} → Emitted d (some d ∷ ds)
  later :
      {o : Option DomainBookDelta} {ds : List (Option DomainBookDelta)}
      → Emitted d ds
      → Emitted d (o ∷ ds)

-- Up to the start of a chain nothing has been received.
state_at_start :
    {ds : List (Option DomainBookDelta)} (c : Copy) {j k m : ℕ}
    → Chain k ds m
    → j ≤ k
    → state_at ds c j ≡ c
unfolding state_at
state_at_start c stop l = refl
state_at_start c (link {d = none} e h) l = state_at_start c h (omega (arith, e))
state_at_start c {j} (link {d = some d} e h) l =
    let r : leb j d.previous_sequence ≡ true = ground (arith, e) in rw r

Chain-le : {ds : List (Option DomainBookDelta)} {k m : ℕ} → Chain k ds m → k ≤ m
Chain-le stop = omega arith
Chain-le (link {d = none} e h) = omega (arith, e, Chain-le h)
Chain-le (link {d = some d} e h) = omega (arith, e, Chain-le h)

Emitted-above :
    {d : DomainBookDelta} {ds : List (Option DomainBookDelta)} {k m : ℕ}
    → Chain k ds m
    → Emitted d ds
    → (k ≤ d.previous_sequence) × (d.sequence ≡ d.previous_sequence + 1)
Emitted-above stop r = elim r [ ]
Emitted-above (link e h) now = omega (arith, e)
Emitted-above (link {d = none} e h) (later r) = omega (arith, e, Emitted-above h r)
Emitted-above (link {d = some d} e h) (later r) = omega (arith, e, Emitted-above h r)

-- Each emitted delta leads from the copies at its previous sequence to those at its sequence.
pub state_at_step :
    {d : DomainBookDelta} {ds : List (Option DomainBookDelta)} (c : Copy) {k m : ℕ}
    → Chain k ds m
    → Emitted d ds
    → receive (some d) (state_at ds c d.previous_sequence) ≡ state_at ds c d.sequence
unfolding state_at
state_at_step c stop r = elim r [ ]
state_at_step {d} c (link e h) now =
    let before : leb d.previous_sequence d.previous_sequence ≡ true = ground arith in
    let after : leb d.sequence d.previous_sequence ≡ false = ground (arith, e) in
    rw (before, after) (sym (state_at_start (receive (some d) c) h (omega (arith, e))))
state_at_step c (link {d = none} e h) (later r) = state_at_step c h r
state_at_step {d} c (link {d = some x} e h) (later r) =
    let bounds = Emitted-above h r in
    let before : leb d.previous_sequence x.previous_sequence ≡ false = ground (arith, e) in
    let after : leb d.sequence x.previous_sequence ≡ false = ground (arith, e) in
    rw (before, after) (state_at_step (receive (some x) c) h r)

-- At the end of a first part of the history all of that part has been received.
pub state_at-append :
    {ds es : List (Option DomainBookDelta)} (c : Copy) {k m n : ℕ}
    → Chain k ds m
    → Chain m es n
    → state_at (ds ++ es) c m ≡ receive_all ds c
unfolding state_at receive_all receive
state_at-append c stop g = state_at_start c g (omega arith)
state_at-append c (link {d = none} e h) g = state_at-append c h g
state_at-append c {m = m} (link {d = some x} e h) g =
    let late : leb m x.previous_sequence ≡ false = ground (arith, e, Chain-le h) in
    rw late (state_at-append (receive (some x) c) h g)

pub Chain-split :
    (ds : List (Option DomainBookDelta)) {es : List (Option DomainBookDelta)} {k n : ℕ}
    → Chain k (ds ++ es) n
    → (m : ℕ) × Chain k ds m × Chain m es n
Chain-split [] {k = k} h = (k, stop, h)
Chain-split (d ∷ ds) (link e h) = let (m, h₁, h₂) = Chain-split ds h in (m, link e h₁, h₂)

pub Chain-functional :
    {ds : List (Option DomainBookDelta)} {j k m n : ℕ} → Chain j ds m → Chain k ds n → j ≡ k → m ≡ n
Chain-functional stop stop q = q
Chain-functional (link {d = none} e h) (link e' g) q = Chain-functional h g (omega (arith, e, e'))
Chain-functional (link {d = some d} e h) (link e' g) q = Chain-functional h g (omega (arith, e, e'))

-- What is emitted first, in front of what the rest of a history emits.
abbrev join :
    List (Option DomainBookDelta)
    → Option (List (Option DomainBookDelta) × OrderBook)
    → Option (List (Option DomainBookDelta) × OrderBook)
join ds none = none
join ds (some (es, b)) = some (ds ++ es, b)

join-eq-some :
    (ds : List (Option DomainBookDelta)) (o : Option (List (Option DomainBookDelta) × OrderBook))
    {r : List (Option DomainBookDelta) × OrderBook}
    → join ds o ≡ some r
    → (t : List (Option DomainBookDelta) × OrderBook) × (o ≡ some t) × ((ds ++ t.0, t.1) ≡ r)
join-eq-some ds none h = cc
join-eq-some ds (some t) h = (t, refl, eq_of_some h)

run-append :
    (ks ls : List Command) (b : OrderBook)
    → run (ks ++ ls) b ≡ (run ks b >>= λ r. join r.0 (run ls r.1))
unfolding run
run-append [] ls b = elim (Option-cases (run ls b)) [ inl e ↦ rw e | inr (t, e) ↦ rw e ]
run-append (k ∷ ks) ls b = elim (Option-cases (step k b)) [
  | inl e ↦ rw e
  | inr (r, e) ↦
      rw (e, run-append ks ls r.1)
        (elim (Option-cases (run ks r.1)) [
          | inl f ↦ rw f
          | inr (t, f) ↦
              rw f (elim (Option-cases (run ls t.1)) [ inl g ↦ rw g | inr (u, g) ↦ rw g ])
        ])
]

-- A flush within a history emits its delta at that place.
pub run-flush :
    (before after : List Command) (timestamp : ℕ) (b : OrderBook) {b' book : OrderBook}
    {ds emitted : List (Option DomainBookDelta)}
    → run (before ++ flushes timestamp ∷ after) b ≡ some (ds, b')
    → run before b ≡ some (emitted, book)
    → (rest : List (Option DomainBookDelta)) × (ds
        ≡ emitted ++ (flush_delta timestamp book).0 ∷ rest)
unfolding run step
run-flush before after timestamp b {b'} {book} {ds} {emitted} e r =
    let (t, et, e₁) = join-eq-some emitted (run (flushes timestamp ∷ after) book) (
      subst
        (λ (o : Option (List (Option DomainBookDelta) × OrderBook)).
          (o >>= λ r. join r.0 (run (flushes timestamp ∷ after) r.1)) ≡ some (ds, b'))
        r (sym (run-append before (flushes timestamp ∷ after) b) ∙ e)) in
    let (u, eu, e₂) = >>=-eq-some (run after (flush_delta timestamp book).1) _ et in
    (u.0, ap (λ p. p.0) (sym e₁) ∙ ap (λ p. emitted ++ p.0) (sym (eq_of_some e₂)))

Chain-snoc :
    {ds : List (Option DomainBookDelta)} (d : Option DomainBookDelta) (k : ℕ) {j m : ℕ}
    → Chain j ds m
    → Continues m d k
    → Chain j (ds ++ d ∷ []) k
Chain-snoc d k stop e = link e stop
Chain-snoc d k (link e' h) e = link e' (Chain-snoc d k h e)

receive_all-snoc :
    (ds : List (Option DomainBookDelta)) (d : Option DomainBookDelta) (c : Copy)
    → receive_all (ds ++ d ∷ []) c ≡ receive d (receive_all ds c)
unfolding receive_all
receive_all-snoc [] d c = refl
receive_all-snoc (x ∷ ds) d c = receive_all-snoc ds d (receive x c)

-- The copies at the sequence that a delta leads to, where the history goes on behind it.
pub state_at-snoc :
    (ds rest : List (Option DomainBookDelta)) (d : Option DomainBookDelta) (c : Copy) (k : ℕ)
    {j m n : ℕ}
    → Chain j ds m
    → Continues m d k
    → Chain j (ds ++ d ∷ rest) n
    → state_at (ds ++ d ∷ rest) c k ≡ receive d (receive_all ds c)
state_at-snoc ds rest d c k {j} {m} {n} h e g =
    let (i, h₁, h₂) = Chain-split (ds ++ d ∷ []) (
      subst (λ (l : List (Option DomainBookDelta)). Chain j l n)
        (sym (append_assoc ds (d ∷ []) rest)) g) in
    let same : i ≡ k = Chain-functional h₁ (Chain-snoc d k h e) refl in
    subst (λ (l : List (Option DomainBookDelta)). state_at l c k ≡ receive d (receive_all ds c))
      (append_assoc ds (d ∷ []) rest)
      (subst (λ (i : ℕ). state_at ((ds ++ d ∷ []) ++ rest) c i ≡ receive d (receive_all ds c)) same
        (state_at-append c h₁ h₂ ∙ receive_all-snoc ds d c))
