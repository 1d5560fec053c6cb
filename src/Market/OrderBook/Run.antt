-- ===== src/Market/OrderBook/Run.antt =====
-- Any sequence of calls on a book, beside a reader of the deltas it emits.
use exaint.Base.{
  ℕ, ◌≡◌, refl, subst, Option, none, some, List, [], ◌∷◌, arith, ◌>>=◌, >>=-eq-some, eq_of_some,
}
use exaint.Base.Int.{ℤ}
use exaint.Market.Events.{DomainBookDelta}
use exaint.Market.OrderBook.{OrderBook, BookSide, set_level, add_quantity, trim, flush_delta}
use exaint.Market.OrderBook.Invariant.{
  IsValid, set_level-IsValid, add_quantity-IsValid, trim-IsValid,
}
use exaint.Market.OrderBook.History.{
  Copy, Mirrors, receive, Continues, flush_delta-IsValid, flush_delta-Mirrors,
  flush_delta-Continues,
}

-- The calls that change a book.
pub data Command : Type 0 where
  sets : BookSide → ℤ → ℤ → Command
  adds : BookSide → ℤ → ℤ → Command
  trims : Command
  flushes : ℕ → Command

abbrev pub no_delta : Option OrderBook → Option (Option DomainBookDelta × OrderBook)
no_delta none = none
no_delta (some b) = some (none, b)

unfoldable pub step : Command → OrderBook → Option (Option DomainBookDelta × OrderBook)
step (sets s p q) b = no_delta (set_level s p q b)
step (adds s p d) b = no_delta (add_quantity s p d b)
step trims b = no_delta (trim b)
step (flushes timestamp) b = some (flush_delta timestamp b)

-- A history of calls, with what each emits; `none` where one throws.
unfoldable pub run : List Command → OrderBook → Option (List (Option DomainBookDelta) × OrderBook)
run [] b = some ([], b)
run (k ∷ ks) b = do r ← step k b; rest ← run ks r.1; some (r.0 ∷ rest.0, rest.1)

unfoldable pub receive_all : List (Option DomainBookDelta) → Copy → Copy
receive_all [] c = c
receive_all (d ∷ ds) c = receive_all ds (receive d c)

-- Each delta names the sequence of the one before it.
pub data Chain : ℕ → List (Option DomainBookDelta) → ℕ → Type 0 where
  stop : {n : ℕ} → Chain n [] n
  link :
      {n k m : ℕ} {d : Option DomainBookDelta} {ds : List (Option DomainBookDelta)}
      → Continues n d k
      → Chain k ds m
      → Chain n (d ∷ ds) m

-- How the reader stands to the book between two calls: it has the book of the last flush.
pub record Follows (c : Copy) (base b : OrderBook) : Type 0 where
  pub valid : IsValid base b
  pub mirrors : Mirrors c base

-- What a step leaves: a base that the reader has, and the sequence numbers used.
abbrev Advances : Copy → OrderBook → Option DomainBookDelta × OrderBook → Type 0
Advances c base (d, b') =
    (base' : OrderBook) × Follows (receive d c) base' b' × Continues base.sequence d base'.sequence

-- A call that emits nothing.
quiet-Advances :
    {base b : OrderBook} {r : Option DomainBookDelta × OrderBook} (c : Copy) (o : Option OrderBook)
    → ((b' : OrderBook) → o ≡ some b' → IsValid base b')
    → Follows c base b
    → no_delta o ≡ some r
    → Advances c base r
unfolding receive
quiet-Advances c none keep f e = cc
quiet-Advances {base} c (some b') keep f e =
    subst (Advances c base) {x = (none, b')} (eq_of_some e)
      (base, record { valid = keep b' refl; mirrors = f.mirrors }, refl)

step-Advances :
    {base b : OrderBook} {r : Option DomainBookDelta × OrderBook} (k : Command) (c : Copy)
    → Follows c base b
    → step k b ≡ some r
    → Advances c base r
unfolding step
step-Advances {base} {b} (sets s p q) c f e =
    quiet-Advances c (set_level s p q b) (λ b' h. set_level-IsValid s p q h f.valid) f e
step-Advances {base} {b} (adds s p d) c f e =
    let (b₁, h, v) = add_quantity-IsValid s p d f.valid in
    quiet-Advances c (add_quantity s p d b)
      (λ b' h'. subst (IsValid base) (ground (arith, h, h')) v) f e
step-Advances {base} {b} trims c f e =
    let (b₁, h, v) = trim-IsValid f.valid in
    quiet-Advances c (trim b) (λ b' h'. subst (IsValid base) (ground (arith, h, h')) v) f e
step-Advances {base} {b} (flushes timestamp) c f e = subst (Advances c base) (eq_of_some e) (
  (flush_delta timestamp b).1,
  record {
    valid = flush_delta-IsValid timestamp f.valid;
    mirrors = flush_delta-Mirrors c timestamp f.valid f.mirrors;
  },
  subst (λ (n : ℕ). Continues n (flush_delta timestamp b).0 (flush_delta timestamp b).1.sequence)
      f.valid.same_sequence (flush_delta-Continues timestamp b),
)

-- What a history leaves.
abbrev pub Ran : Copy → OrderBook → List (Option DomainBookDelta) × OrderBook → Type 0
Ran c base (ds, b') =
    (base' : OrderBook) × Follows (receive_all ds c) base' b'
    × Chain base.sequence ds base'.sequence

pub run-Ran :
    (ks : List Command) (c : Copy) {base b : OrderBook}
    {r : List (Option DomainBookDelta) × OrderBook}
    → Follows c base b
    → run ks b ≡ some r
    → Ran c base r
unfolding run receive_all
run-Ran [] c {base} {b} f e = subst (Ran c base) {x = ([], b)} (eq_of_some e) (base, f, stop)
run-Ran (k ∷ ks) c {base} {b} f e =
    let (s, es, e₁) = >>=-eq-some (step k b) _ e in
    let (t, et, e₂) = >>=-eq-some (run ks s.1) _ e₁ in
    let (mid, f₁, n₁) = step-Advances k c f es in
    let (last, f₂, n₂) = run-Ran ks (receive s.0 c) f₁ et in
    subst (Ran c base) {x = (s.0 ∷ t.0, t.1)} (eq_of_some e₂) (last, f₂, link n₁ n₂)

-- Over any history of sets, adds, trims and flushes that does not throw, a reader that starts with
-- the book, replays every delta emitted, in order, and then the delta of one more flush, has the
-- book: the same quantity at every price of both sides. The deltas form one chain of sequence
-- numbers, which ends at the book's.
pub run-Mirrors :
    {b b' : OrderBook} {ds : List (Option DomainBookDelta)} (ks : List Command) (c : Copy)
    (timestamp : ℕ)
    → IsValid b b
    → Mirrors c b
    → run ks b ≡ some (ds, b')
    → let (d, b'') = flush_delta timestamp b' in
      Mirrors (receive d (receive_all ds c)) b''
      × (n : ℕ) × Chain b.sequence ds n
      × Continues n d b''.sequence
run-Mirrors {b} {b'} ks c timestamp v m e =
    let (base, f, n) = run-Ran ks c (record { valid = v; mirrors = m }) e in
    (
      flush_delta-Mirrors _ timestamp f.valid f.mirrors,
      base.sequence,
      n,
      subst
          (λ (n : ℕ).
            Continues n (flush_delta timestamp b').0 (flush_delta timestamp b').1.sequence)
          f.valid.same_sequence (flush_delta-Continues timestamp b'),
    )
