-- ===== src/Market/Simulator/Sound/Quotes.antt =====
-- generator.ts: churn, the new quotes and the refilled ladder keep the book sound.
use exaint.Base.{
  ℕ, zero, suc, ◌-◌, ◌/◌, ◌%◌, ◌≡◌, refl, sym, subst, ◌∙◌, false, Option, none, some, arith, inl,
  inr, Bool-cases, Option-cases, if◌then◌else◌, ltb, ◌==◌, length, get_elem?,
}
use exaint.Base.Int.{
  ℤ, pos, ◌≤ℤ◌, ◌<ℤ◌, ◌+ℤ◌, ◌*ℤ◌, eqb_ℤ, eqb_ℤ_iff, *ℤ_nonneg, div_ℤ-*ℤ_nonneg, int_laws, div_ℤ,
}
use exaint.Base.Keys.{int_eq}
use exaint.Base.Map
use exaint.Base.Map.{has-get, has-set}
use exaint.Base.Sorted.{get_elem-contains}
use exaint.Market.Config.{SymbolConfig}
use exaint.Market.OrderBook.{OrderBook, BookSide, bid, ask, side_of, quantity_at, prices}
use exaint.Market.OrderBook.Invariant.{IsValid, write}
use exaint.Market.OrderBook.Tracking.{Positive}
use exaint.Market.OrderBook.Snapshot.{contains-prices}
use exaint.Market.Steps.{Done, Post, Post_mono, Post-bind, if-Post, skip, ◌>>=◌}
use exaint.Market.Prng.{splitmix_64, next_int_between, next_big_int_between}
use exaint.Market.Prng.Bounds.{next_big_int_between-Post, next_int_between-Post}
use exaint.Market.Simulator.{Scene, Scenic, draw, write_level, change_level, random_level_quantity}
use exaint.Market.Simulator.Quotes.{churn_at, churn_event, churn_events, quote, fill_slot}
use exaint.Market.Simulator.Sound.{Has, Sound, WellConfigured, Has-Room, write-SoundParts}
use exaint.Market.Simulator.Sound.Steps.{Keeps, bind-Keeps, draw-Post, drawn, write_level-Post}
use exaint.Market.Simulator.Sound.Flow.{change_level-Sound}

-- Where a quantity is not zero there is a level.
nonzero-Has :
    (s : BookSide) (p : ℤ) (b : OrderBook)
    → eqb_ℤ (quantity_at s p b) (pos 0) ≡ false
    → Has p (side_of s b)
unfolding quantity_at
nonzero-Has s p b h = elim (Bool-cases (Map.has p (side_of s b))) [
  | inl there ↦ there
  | inr gone ↦ absurd (ground (arith, has-get p (side_of s b) gone))
]

pub write-Has :
    (s : BookSide) (p q : ℤ) (b : OrderBook) → pos 0 <ℤ q → Has p (side_of s (write s p q b))
write-Has bid p q b h = ground (arith, has-set p p q b.bids, eqb_ℤ_iff p p)
write-Has ask p q b h = ground (arith, has-set p p q b.asks, eqb_ℤ_iff p p)

quantity_nonneg :
    (s : BookSide) (p : ℤ) (b : OrderBook) → Positive (side_of s b) → pos 0 ≤ℤ quantity_at s p b
unfolding quantity_at
quantity_nonneg s p b h = elim (Option-cases (Map.get p (side_of s b))) [
  | inl gone ↦ rw gone (omega arith)
  | inr there ↦ rw there.1 (omega (arith, h p there.0 there.1))
]

side-Positive : {base b : OrderBook} (s : BookSide) → IsValid base b → Positive (side_of s b)
side-Positive bid v = v.bid_side.positive
side-Positive ask v = v.ask_side.positive

get_elem-Has :
    (s : BookSide) (b : OrderBook) (i : ℕ) (p : ℤ)
    → get_elem? (prices s b) i ≡ some p
    → Has p (side_of s b)
get_elem-Has s b i p h = sym (contains-prices s p b) ∙ get_elem-contains (prices s b) i p h

module _ {config : SymbolConfig} (good : WellConfigured config) where
  -- A fresh quantity is positive; the draw changes nothing else.
  level_quantity-Post :
      (fuel : ℕ) (f : ℤ → Scenic Done) (w : Scene) (Q : Done → Scene → Type 0)
      → ((q : ℤ) (state : ℕ) → pos 0 <ℤ q → Post (f q (drawn state w)) Q)
      → Post ((random_level_quantity config fuel >>= f) w) Q
  level_quantity-Post fuel f w Q h =
      let low = pos config.min_level_quantity in
      let high = pos config.max_level_quantity in
      let some_level = good.some_level in
      Post-bind (random_level_quantity config fuel) f w (λ q w'. Post (f q w') Q) Q
        (draw-Post (next_big_int_between fuel low high) w (λ q. (low ≤ℤ q) × (q ≤ℤ high)) _
          (next_big_int_between-Post fuel low high w.sim.prng (omega (arith, good.level_range)))
          (λ q state r. h q state (omega (arith, r.0))))
        (λ q w' p. p)

  -- Where a level is quoted it is there already, or it is written with a fresh quantity.
  pub quote-Post :
      (fuel : ℕ) (s : BookSide) (target : ℤ) (w : Scene) (Q : Done → Scene → Type 0)
      → (Has target (side_of s w.book) → Q tt w)
      → ((q : ℤ) (state : ℕ)
          → pos 0 <ℤ q
          → Q tt (record (drawn state w) { book = write s target q w.book }))
      → Post (quote config fuel s target w) Q
  quote-Post fuel s target w Q there fresh =
      elim (Bool-cases (eqb_ℤ (quantity_at s target w.book) (pos 0))) [
        | inl free ↦
            rw (free, Post)
              (level_quantity-Post fuel (write_level s target) w Q (λ q state h.
                write_level-Post s target q (drawn state w) Q (omega (arith, h)) (fresh q state h)))
        | inr taken ↦ rw (taken, Post) (there (nonzero-Has s target w.book taken))
      ]

  pub fill_slot-Post :
      (fuel : ℕ) (s : BookSide) (price : ℤ) (offset : ℕ) (w : Scene) (Q : Done → Scene → Type 0)
      → Q tt w
      → ((q : ℤ) (state : ℕ)
          → pos 0 ≤ℤ q
          → Q tt (record (drawn state w) { book = write s price q w.book }))
      → Post (fill_slot config fuel s price offset w) Q
  fill_slot-Post fuel s price offset w Q there fresh =
      elim (Bool-cases (eqb_ℤ (quantity_at s price w.book) (pos 0))) [
        | inl free ↦
            let scale = pos 1 +ℤ pos (offset / 8) in
            rw (free, Post)
              (level_quantity-Post fuel (λ q. write_level s price (q *ℤ scale)) w Q
                (λ q state h.
                  let natural = *ℤ_nonneg q scale (omega (arith, h)) (omega int_laws) in
                  write_level-Post s price (q *ℤ scale) (drawn state w) Q natural
                    (fresh (q *ℤ scale) state natural)))
        | inr taken ↦ rw (taken, Post) there
      ]

module _ {config : SymbolConfig} (good : WellConfigured config) {base : OrderBook} where
  resize :
      (s : BookSide) (p kept : ℤ) (w : Scene)
      → pos 0 ≤ℤ kept
      → Has p (side_of s w.book)
      → Sound config base w
      → Post
          (write_level s p (div_ℤ (quantity_at s p w.book *ℤ kept) 100) w)
          (λ _ w'. Sound config base w')
  resize s p kept w h there v =
      let before = quantity_nonneg s p w.book (side-Positive s v.valid) in
      let natural = div_ℤ-*ℤ_nonneg (quantity_at s p w.book) kept 100 before h in
      let after = div_ℤ (quantity_at s p w.book *ℤ kept) 100 in
      write_level-Post s p after w (λ _ w'. Sound config base w') natural
        (write-SoundParts s p after w natural (inr (Has-Room config s p w.book v.uncrossed there))
          v)

  churn_at-Keeps :
      (fuel : ℕ) (s : BookSide) (price : Option ℤ) (w : Scene)
      → ((p : ℤ) → price ≡ some p → Has p (side_of s w.book))
      → Sound config base w
      → Post (churn_at config fuel s price w) (λ _ w'. Sound config base w')
  churn_at-Keeps fuel s none w here v = v
  churn_at-Keeps fuel s (some p) w here v =
      let (roll, state) = splitmix_64 w.sim.prng in
      let w' = drawn state w in
      let there = here p refl in
      let stays : Done → Scene → Type 0 = λ _ w'. Sound config base w' in
      if-Post (ltb (roll / 2048) 5404319552844595) _ _ w' stays
        (level_quantity-Post good fuel (λ q. change_level s p (div_ℤ q 4)) w' stays
          (λ q state h. change_level-Sound s p (div_ℤ q 4) (drawn state w') there v))
        (Post-bind (draw (next_big_int_between fuel (pos 0) (pos 75))) _ w'
          (λ kept w''. (pos 0 ≤ℤ kept) × (w''.book ≡ w.book) × Sound config base w'') stays
          (draw-Post (next_big_int_between fuel (pos 0) (pos 75)) w'
            (λ kept. (pos 0 ≤ℤ kept) × (kept ≤ℤ pos 75)) _
            (next_big_int_between-Post fuel (pos 0) (pos 75) state (omega arith))
            (λ kept state h. (h.0, refl, v)))
          (λ kept w'' h.
            resize s p kept w'' h.0 (subst (λ b. Has p (side_of s b)) (sym h.1) there) h.2))

  churn_event-Keeps : (fuel : ℕ) → Keeps config base (churn_event config fuel)
  churn_event-Keeps fuel w v =
      let (x, state) = splitmix_64 w.sim.prng in
      let side = if x % 2 == 1 then bid else ask in
      let ps = prices side w.book in
      let w' = drawn state w in
      let stays : Done → Scene → Type 0 = λ _ w'. Sound config base w' in
      let d = next_int_between fuel 0 (length ps - 1) in
      if-Post (length ps == 0) skip _ w' stays v (
        Post-bind (draw d) (λ i. churn_at config fuel side (get_elem? ps i)) w'
          (λ i w''. (w''.book ≡ w.book) × Sound config base w'') stays
          (draw-Post d w' (λ _. Done) _
            (Post_mono (d state) _ (λ _ _. Done) (λ _ _ _. tt)
              (next_int_between-Post fuel 0 (length ps - 1) state (omega arith)))
            (λ i state' _. (refl, v)))
          (λ i w'' h.
            churn_at-Keeps fuel side (get_elem? ps i) w''
              (λ p e.
                subst (λ b. Has p (side_of side b)) (sym h.0) (get_elem-Has side w.book i p e))
              h.1))

  pub churn_events-Keeps : (fuel n : ℕ) → Keeps config base (churn_events config fuel n)
  unfolding churn_events
  churn_events-Keeps fuel zero w v = v
  churn_events-Keeps fuel (suc n) w v =
      bind-Keeps (churn_event config fuel) _ (churn_event-Keeps fuel)
        (λ _. churn_events-Keeps fuel n) w v
