-- ===== src/Delivery/Scheduler/ExactlyOnce.antt =====
-- delivery-scheduler.ts over any sequence of ticks: tiering paces the finalised candles of a
-- subscription, and neither loses, repeats, reorders nor changes one.
use exaint.Base.{
  ℕ, ◌-◌, Bool, true, ◌&&◌, ◌||◌, Option, none, some, List, [], ◌∷◌, ◌++◌, leb, keep_if, ◌≡◌, refl,
  sym, ◌∙◌, ap, append-nil, append_assoc, map-append, Bool-cases, inl, inr, eq_of_some,
}
use exaint.Protocol.{Interval, Tier, trades, candles, tier_cadence_ms}
use exaint.App.Wire.{Candle, encode_candle}
use exaint.Market.Events.{DomainCandle, SymbolTickResult}
use exaint.Delivery.Session.{SymbolSubscription, has_channel}
use exaint.Delivery.Scheduler.{
  ServerFrame, candles_update, trades_batch, book_delta, error_frame, non_empty, of_interval,
  enqueue, enqueue_trades, enqueue_candles, encode_active, encode_finals, flush_candles,
  flush_trades, flush_due, is_some,
}

-- What the dispatcher does with a subscription at one tick.
pub record Turn : Type 0 where
  pub result : SymbolTickResult
  pub now : ℕ
  pub tier : Tier
  pub drop_trades : Bool

unfoldable pub turn : Turn → SymbolSubscription → List ServerFrame × SymbolSubscription
turn t s = flush_due t.now t.tier t.drop_trades (enqueue t.result s)

unfoldable pub turns : List Turn → SymbolSubscription → List ServerFrame × SymbolSubscription
turns [] s = ([], s)
turns (t ∷ ts) s =
    let (frames, s') = turn t s in let (more, s'') = turns ts s' in (frames ++ more, s'')

-- The candles of a frame that the client is told are final.
pub finals_of : ServerFrame → List Candle
finals_of (candles_update symbol interval cs) = keep_if (λ c. c.final) cs
finals_of (trades_batch symbol ts) = []
finals_of (book_delta d) = []
finals_of (error_frame e) = []

pub finals_received : List ServerFrame → List Candle
finals_received [] = []
finals_received (f ∷ fs) = finals_of f ++ finals_received fs

-- The finalised candles of the interval, over a sequence of ticks.
pub closed_candles : Interval → List Turn → List DomainCandle
closed_candles interval [] = []
closed_candles interval (t ∷ ts) =
    keep_if (of_interval interval) t.result.finalised_candles ++ closed_candles interval ts

-- The subscription has the candles channel, at this interval.
pub record Charts (interval : Interval) (s : SymbolSubscription) : Type 0 where
  pub wants : has_channel candles s.channels ≡ true
  pub at : s.subscribed_interval ≡ some interval

finals_received-append :
    (fs gs : List ServerFrame)
    → finals_received (fs ++ gs) ≡ finals_received fs ++ finals_received gs
unfolding finals_received
finals_received-append [] gs = refl
finals_received-append (f ∷ fs) gs =
    ap (◌++◌ (finals_of f)) (finals_received-append fs gs)
    ∙ sym (append_assoc (finals_of f) (finals_received fs) (finals_received gs))

finals_of-finals :
    (cs : List DomainCandle) (rest : List Candle)
    → keep_if (λ c. c.final) (encode_finals cs ++ rest)
      ≡ encode_finals cs ++ keep_if (λ c. c.final) rest
unfolding keep_if encode_candle
finals_of-finals [] rest = refl
finals_of-finals (c ∷ cs) rest = ap (◌∷◌ (encode_candle c true)) (finals_of-finals cs rest)

finals_of-active : (o : Option DomainCandle) → keep_if (λ c. c.final) (encode_active o) ≡ []
unfolding keep_if encode_candle
finals_of-active none = refl
finals_of-active (some c) = refl

-- Queueing trades leaves the candles as they are.
record Candles (s' s : SymbolSubscription) : Type 0 where
  channels : s'.channels ≡ s.channels
  interval : s'.subscribed_interval ≡ s.subscribed_interval
  pending : s'.pending_final_candles ≡ s.pending_final_candles

enqueue_trades-Candles :
    (result : SymbolTickResult) (s : SymbolSubscription) → Candles (enqueue_trades result s) s
enqueue_trades-Candles result s =
    elim (Bool-cases (has_channel trades s.channels && non_empty result.trades)) [
      | inl some_ ↦ rw some_ (record { channels = refl; interval = refl; pending = refl })
      | inr none_ ↦ rw none_ (record { channels = refl; interval = refl; pending = refl })
    ]

enqueue_candles-Charts :
    {s : SymbolSubscription} (o : Option Interval) (interval : Interval) (result : SymbolTickResult)
    → o ≡ some interval
    → Charts interval s
    → Charts interval (enqueue_candles o result s)
      × ((enqueue_candles o result s).pending_final_candles
          ≡ s.pending_final_candles ++ keep_if (of_interval interval) result.finalised_candles)
enqueue_candles-Charts none interval result e v = cc
enqueue_candles-Charts {s} (some i) interval result e v = rw (v.wants) (
  record { wants = v.wants; at = v.at },
  ap (λ (j : Interval). s.pending_final_candles ++ keep_if (of_interval j) result.finalised_candles)
      (eq_of_some e),
)

enqueue-Charts :
    {s : SymbolSubscription} (interval : Interval) (result : SymbolTickResult)
    → Charts interval s
    → Charts interval (enqueue result s)
      × ((enqueue result s).pending_final_candles
          ≡ s.pending_final_candles ++ keep_if (of_interval interval) result.finalised_candles)
unfolding enqueue
enqueue-Charts {s} interval result v =
    let k = enqueue_trades-Candles result s in
    let here : (enqueue_trades result s).subscribed_interval ≡ some interval = k.interval ∙ v.at in
    let wants : has_channel candles (enqueue_trades result s).channels ≡ true =
      ap (has_channel candles) k.channels ∙ v.wants in
    let (charts, grown) =
      enqueue_candles-Charts {s = enqueue_trades result s} s.subscribed_interval interval result
        v.at (record { wants = wants; at = here }) in
    (
      charts,
      grown ∙ ap (λ cs. cs ++ keep_if (of_interval interval) result.finalised_candles) k.pending,
    )

flush_candles-finals :
    {s : SymbolSubscription} (o : Option Interval) (interval : Interval) (now : ℕ) (tier : Tier)
    → o ≡ some interval
    → Charts interval s
    → let (frames, s') = flush_candles now tier o s in
      Charts interval s'
      × (finals_received frames ++ encode_finals s'.pending_final_candles
          ≡ encode_finals s.pending_final_candles)
unfolding flush_candles finals_received finals_of
flush_candles-finals none interval now tier e v = cc
flush_candles-finals {s} (some i) interval now tier e v = elim (Bool-cases due) [
  | inl send ↦ rw send (
    record { wants = v.wants; at = v.at },
    append-nil _
        ∙ append-nil _
        ∙ finals_of-finals s.pending_final_candles (encode_active s.latest_active_candle)
        ∙ ap (◌++◌ (encode_finals s.pending_final_candles))
            (finals_of-active s.latest_active_candle)
        ∙ append-nil (encode_finals s.pending_final_candles),
  )
  | inr wait ↦ rw wait (v, refl)
]
  where
    due : Bool
    due =
        (non_empty s.pending_final_candles || is_some s.latest_active_candle)
        && leb (tier_cadence_ms tier).candles_update_ms (now - s.last_candle_sent_at)

flush_trades-finals :
    (interval : Interval) (now : ℕ) (tier : Tier) (drop_trades : Bool) (s : SymbolSubscription)
    → let (frames, s') = flush_trades now tier drop_trades s in
      (finals_received frames ≡ [])
      × (s'.channels ≡ s.channels)
      × (s'.subscribed_interval ≡ s.subscribed_interval)
      × (s'.pending_final_candles ≡ s.pending_final_candles)
unfolding flush_trades finals_received finals_of
flush_trades-finals interval now tier drop_trades s =
    elim (Bool-cases (non_empty s.pending_trades)) [
      | inr nothing ↦ rw nothing (refl, refl, refl, refl)
      | inl waiting ↦ elim (Bool-cases drop_trades) [
        | inl drops ↦ rw (waiting, drops) (refl, refl, refl, refl)
        | inr keeps ↦
            elim (Bool-cases
              (leb (tier_cadence_ms tier).trades_batch_ms (now - s.last_trade_batch_sent_at))) [
                | inl due ↦ rw (waiting, keeps, due) (refl, refl, refl, refl)
                | inr wait ↦ rw (waiting, keeps, wait) (refl, refl, refl, refl)
              ]
      ]
    ]

encode_finals-append :
    (cs ds : List DomainCandle) → encode_finals (cs ++ ds) ≡ encode_finals cs ++ encode_finals ds
encode_finals-append cs ds = map-append (λ c. encode_candle c true) cs ds

turn-finals :
    {s : SymbolSubscription} (interval : Interval) (t : Turn)
    → Charts interval s
    → let (frames, s') = turn t s in
      Charts interval s'
      × (finals_received frames ++ encode_finals s'.pending_final_candles
          ≡ encode_finals s.pending_final_candles
            ++ encode_finals (keep_if (of_interval interval) t.result.finalised_candles))
unfolding turn flush_due
turn-finals {s} interval t v =
    let (v₁, grown) = enqueue-Charts interval t.result v in
    let s₁ = enqueue t.result s in
    let (v₂, sent) = flush_candles-finals s₁.subscribed_interval interval t.now t.tier v₁.at v₁ in
    let r = flush_candles t.now t.tier s₁.subscribed_interval s₁ in
    let (quiet, same_channels, same_interval, same_pending) =
      flush_trades-finals interval t.now t.tier t.drop_trades r.1 in
    let q = flush_trades t.now t.tier t.drop_trades r.1 in
    (
      record {
        wants = ap (has_channel candles) same_channels ∙ v₂.wants;
        at = same_interval ∙ v₂.at;
      },
      ap (λ fs. fs ++ encode_finals q.1.pending_final_candles)
            (finals_received-append r.0 q.0
              ∙ ap (◌++◌ (finals_received r.0)) quiet
              ∙ append-nil (finals_received r.0))
          ∙ ap (λ cs. finals_received r.0 ++ encode_finals cs) same_pending
          ∙ sent
          ∙ ap encode_finals grown
          ∙ encode_finals-append s.pending_final_candles
              (keep_if (of_interval interval) t.result.finalised_candles),
    )

turns-Charts :
    (interval : Interval) (ts : List Turn) {s : SymbolSubscription}
    → Charts interval s
    → let (frames, s') = turns ts s in
      finals_received frames ++ encode_finals s'.pending_final_candles
      ≡ encode_finals (s.pending_final_candles ++ closed_candles interval ts)
unfolding turns finals_received closed_candles
turns-Charts interval [] {s} v = ap encode_finals (sym (append-nil s.pending_final_candles))
turns-Charts interval (t ∷ ts) {s} v =
    let (v₁, e) = turn-finals interval t v in
    let r = turn t s in
    let q = turns ts r.1 in
    let closed = keep_if (of_interval interval) t.result.finalised_candles in
    ap (λ fs. fs ++ encode_finals q.1.pending_final_candles) (finals_received-append r.0 q.0)
    ∙ append_assoc (finals_received r.0) (finals_received q.0)
        (encode_finals q.1.pending_final_candles)
    ∙ ap (◌++◌ (finals_received r.0)) (turns-Charts interval ts {s = r.1} v₁)
    ∙ ap (◌++◌ (finals_received r.0))
        (encode_finals-append r.1.pending_final_candles (closed_candles interval ts))
    ∙ sym (
        append_assoc (finals_received r.0) (encode_finals r.1.pending_final_candles)
          (encode_finals (closed_candles interval ts)))
    ∙ ap (λ cs. cs ++ encode_finals (closed_candles interval ts)) e
    ∙ ap (λ cs. cs ++ encode_finals (closed_candles interval ts))
        (sym (encode_finals-append s.pending_final_candles closed))
    ∙ sym (encode_finals-append (s.pending_final_candles ++ closed) (closed_candles interval ts))
    ∙ ap encode_finals (append_assoc s.pending_final_candles closed (closed_candles interval ts))

-- Over any ticks, at any times and with any tiers and drops of trades, a subscription to the candles
-- of an interval is sent exactly the finalised candles of that interval, each once, in the order in
-- which they closed and with the values they closed with; those not sent yet wait in order.
pub turns-finals :
    (s : SymbolSubscription) (interval : Interval) (ts : List Turn)
    → s.subscribed_interval ≡ some interval
    → has_channel candles s.channels ≡ true
    → let (frames, s') = turns ts s in
      finals_received frames ++ encode_finals s'.pending_final_candles
      ≡ encode_finals (s.pending_final_candles ++ closed_candles interval ts)
turns-finals s interval ts at wants = turns-Charts interval ts (record { at = at; wants = wants })
