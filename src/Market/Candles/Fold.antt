-- ===== src/Market/Candles/Fold.antt =====
-- candles/aggregator.ts against a description of candles that is not a fold: each candle tells of
-- the trades of its bucket, and together they tell of all trades.
use exaint.Base.{
  ◌≤◌, ◌≡◌, refl, sym, ◌∙◌, ap, List, [], ◌∷◌, ◌++◌, String, ltb, length, arith, Bool-cases, inl,
  inr, All, All-append, length-append,
}
use exaint.Base.Int.{ℤ, pos, ◌+ℤ◌, ◌≤ℤ◌, ltb_ℤ, int_laws, +ℤ_assoc}
use exaint.Protocol.{Interval, interval_ms}
use exaint.Market.Events.{DomainCandle, DomainTrade, candle_start}
use exaint.Market.Candles.{extend_candle, open_candle}

-- Some element satisfies `P`.
pub data Some {ℓ κ} {A : Type ℓ} (P : A → Type κ) : List A → Type (ℓ ⊔ κ) where
  here : {x : A} {xs : List A} → P x → Some P (x ∷ xs)
  there : {x : A} {xs : List A} → Some P xs → Some P (x ∷ xs)

Some-append {ℓ κ} :
    {A : Type ℓ} {P : A → Type κ} {xs : List A} (ys : List A) → Some P xs → Some P (xs ++ ys)
Some-append ys (here p) = here p
Some-append ys (there s) = there (Some-append ys s)

Some-last {ℓ κ} : {A : Type ℓ} {P : A → Type κ} (x : A) (xs : List A) → P x → Some P (xs ++ x ∷ [])
Some-last x [] p = here p
Some-last x (y ∷ xs) p = there (Some-last x xs p)

All-mono {ℓ κ μ} :
    {A : Type ℓ} {P : A → Type κ} {Q : A → Type μ} (xs : List A)
    → ((x : A) → P x → Q x)
    → All P xs
    → All Q xs
All-mono [] f h = tt
All-mono (x ∷ xs) f h = (f x h.0, All-mono xs f h.1)

pub total_quantity : List DomainTrade → ℤ
total_quantity [] = pos 0
total_quantity (t ∷ ts) = t.quantity +ℤ total_quantity ts

total_quantity-append :
    (ts : List DomainTrade) (t : DomainTrade)
    → total_quantity (ts ++ t ∷ []) ≡ total_quantity ts +ℤ t.quantity
unfolding total_quantity
total_quantity-append [] t = omega int_laws
total_quantity-append (u ∷ ts) t =
    ap (λ q. u.quantity +ℤ q) (total_quantity-append ts t)
    ∙ sym (+ℤ_assoc u.quantity (total_quantity ts) t.quantity)

-- The candle of one bucket: the trades from the first to the last, all in the bucket.
pub record Describes (i : Interval) (c : DomainCandle) (ts : List DomainTrade) : Type 0 where
  pub bucket : All (λ (t : DomainTrade). candle_start t.timestamp (interval_ms i) ≡ c.start_time) ts
  pub opens :
      (t : DomainTrade) × (rest : List DomainTrade) × (ts ≡ t ∷ rest) × (c.open_price ≡ t.price)
  pub closes :
      (t : DomainTrade) × (rest : List DomainTrade) × (ts ≡ rest ++ t ∷ []) × (c.close ≡ t.price)
  pub at_most : All (λ (t : DomainTrade). t.price ≤ℤ c.high) ts
  pub high_met : Some (λ (t : DomainTrade). t.price ≡ c.high) ts
  pub at_least : All (λ (t : DomainTrade). c.low ≤ℤ t.price) ts
  pub low_met : Some (λ (t : DomainTrade). t.price ≡ c.low) ts
  pub sum : c.volume ≡ total_quantity ts
  pub count : c.trade_count ≡ length ts
  pub newest : All (λ (t : DomainTrade). t.trade_id ≤ c.last_trade_id) ts
  pub newest_met : Some (λ (t : DomainTrade). t.trade_id ≡ c.last_trade_id) ts

pub open_candle-Describes :
    (i : Interval) (symbol : String) (t : DomainTrade)
    → Describes i (open_candle symbol i (candle_start t.timestamp (interval_ms i)) t) (t ∷ [])
unfolding total_quantity
open_candle-Describes i symbol t = record {
  bucket = (refl, tt);
  opens = (t, [], refl, refl);
  closes = (t, [], refl, refl);
  at_most = (omega arith, tt);
  high_met = here refl;
  at_least = (omega arith, tt);
  low_met = here refl;
  sum = omega int_laws;
  count = omega arith;
  newest = (omega arith, tt);
  newest_met = here refl;
}

pub extend_candle-Describes :
    {i : Interval} {c : DomainCandle} {ts : List DomainTrade} (t : DomainTrade)
    → candle_start t.timestamp (interval_ms i) ≡ c.start_time
    → Describes i c ts
    → Describes i (extend_candle c t) (ts ++ t ∷ [])
unfolding extend_candle
extend_candle-Describes {i} {c} {ts} t e d = record {
  bucket = All-append _ ts (t ∷ []) d.bucket (e, tt);
  opens = let (u, rest, q, o) = d.opens in (u, rest ++ t ∷ [], ap (λ xs. xs ++ t ∷ []) q, o);
  closes = (t, ts, refl, refl);
  at_most =
      All-append _ ts (t ∷ []) (All-mono ts (λ u h. ground arith) d.at_most) (ground arith, tt);
  high_met = elim (Bool-cases (ltb_ℤ c.high t.price)) [
    | inl more ↦ rw more (Some-last t ts refl)
    | inr less ↦ rw less (Some-append (t ∷ []) d.high_met)
  ];
  at_least =
      All-append _ ts (t ∷ []) (All-mono ts (λ u h. ground arith) d.at_least) (ground arith, tt);
  low_met = elim (Bool-cases (ltb_ℤ t.price c.low)) [
    | inl less ↦ rw less (Some-last t ts refl)
    | inr more ↦ rw more (Some-append (t ∷ []) d.low_met)
  ];
  sum = ap (λ v. v +ℤ t.quantity) d.sum ∙ sym (total_quantity-append ts t);
  count = omega (arith, d.count, length-append ts (t ∷ []));
  newest = All-append _ ts (t ∷ []) (All-mono ts (λ u h. ground arith) d.newest) (ground arith, tt);
  newest_met = elim (Bool-cases (ltb c.last_trade_id t.trade_id)) [
    | inl more ↦ rw more (Some-last t ts refl)
    | inr less ↦ rw less (Some-append (t ∷ []) d.newest_met)
  ];
}
