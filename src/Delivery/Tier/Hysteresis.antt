-- ===== src/Delivery/Tier/Hysteresis.antt =====
-- tier-controller.ts over any sequence of reports: what each change of tier costs.
use exaint.Base.{
  ℕ, ◌+◌, ◌*◌, ◌≤◌, ◌<◌, Bool, false, some, List, [], ◌∷◌, ltb, if◌then◌else◌, ◌≡◌, refl, arith,
}
use exaint.Protocol.{Tier, full, degraded, minimal}
use exaint.Delivery.Session.{ConnectionSession}
use exaint.Delivery.Tier.{TierController, apply_report, is_bad, is_good, judge, count_report}

-- The place of a tier, from the least frequent updates.
abbrev pub rank : Tier → ℕ
rank minimal = 0
rank degraded = 1
rank full = 2

pub record Report (M : Type 0) : Type 0 where
  pub rtt : M
  pub jitter : M
  pub now : ℕ

module _ {M : Type 0} (above below : M → ℕ → Bool) where
  unfoldable pub after : Report M → TierController M → TierController M
  after r c = (apply_report above below r.rtt r.jitter r.now c).1

  pub bad_at : Report M → TierController M → Bool
  bad_at r c = is_bad above below c.session.auto_tier r.rtt r.jitter

  pub good_at : Report M → TierController M → Bool
  good_at r c = is_good above below c.session.auto_tier r.rtt r.jitter

  -- Room in both counters.
  pub record Waits (c : TierController M) : Type 0 where
    pub bad_room : c.session.consecutive_bad_reports ≤ 2
    pub good_room : c.session.consecutive_good_reports ≤ 4

  step_down : Tier → Tier → ℕ
  step_down before now = if ltb (rank now) (rank before) then 1 else 0

  step_up : Tier → Tier → ℕ
  step_up before now = if ltb (rank before) (rank now) then 1 else 0

  one_if : Bool → ℕ
  one_if b = if b then 1 else 0

  -- One report, by the tier it is judged at.
  judge-cost :
      (bad good : Bool) (s : ConnectionSession M)
      → (s.auto_tier ≡ minimal → bad ≡ false)
      → (s.auto_tier ≡ full → good ≡ false)
      → s.consecutive_bad_reports ≤ 2
      → s.consecutive_good_reports ≤ 4
      → let s' = judge above below bad good (count_report above below bad good s) in
        (s'.consecutive_bad_reports ≤ 2)
        × (s'.consecutive_good_reports ≤ 4)
        × (3 * step_down s.auto_tier s'.auto_tier + s'.consecutive_bad_reports
            ≤ s.consecutive_bad_reports + one_if bad)
        × (5 * step_up s.auto_tier s'.auto_tier + s'.consecutive_good_reports
            ≤ s.consecutive_good_reports + one_if good)
        × (rank s'.auto_tier + step_down s.auto_tier s'.auto_tier
            ≡ rank s.auto_tier + step_up s.auto_tier s'.auto_tier)
  unfolding step_down step_up one_if
  judge-cost bad good s m f b g = ground arith

  -- What a sequence of reports does: the controller after it, and how often a report was bad, was
  -- good, made the tier go down and made it go up.
  pub record Tally : Type 0 where
    pub controller : TierController M
    pub bads : ℕ
    pub goods : ℕ
    pub downs : ℕ
    pub ups : ℕ

  pub tally : List (Report M) → TierController M → Tally
  tally [] c = record { controller = c; bads = 0; goods = 0; downs = 0; ups = 0 }
  tally (r ∷ rs) c =
      let c' = after r c in
      let t = tally rs c' in
      record {
        controller = t.controller;
        bads = one_if (bad_at r c) + t.bads;
        goods = one_if (good_at r c) + t.goods;
        downs = step_down c.session.auto_tier c'.session.auto_tier + t.downs;
        ups = step_up c.session.auto_tier c'.session.auto_tier + t.ups;
      }

  after-cost :
      (r : Report M) (c : TierController M)
      → Waits c
      → let c' = after r c in
        Waits c'
        × (3 * step_down c.session.auto_tier c'.session.auto_tier
              + c'.session.consecutive_bad_reports
            ≤ c.session.consecutive_bad_reports + one_if (bad_at r c))
        × (5 * step_up c.session.auto_tier c'.session.auto_tier
              + c'.session.consecutive_good_reports
            ≤ c.session.consecutive_good_reports + one_if (good_at r c))
        × (rank c'.session.auto_tier + step_down c.session.auto_tier c'.session.auto_tier
            ≡ rank c.session.auto_tier + step_up c.session.auto_tier c'.session.auto_tier)
  unfolding is_bad is_good after apply_report bad_at good_at
  after-cost r c v =
      let bad = bad_at r c in
      let good = good_at r c in
      let s = record c.session {
        rtt_ms = r.rtt;
        jitter_ms = r.jitter;
        last_network_report_at = some r.now;
      } in
      let (b, g, d, u, k) =
        judge-cost bad good s (minimal_bad c.session.auto_tier) (full_good c.session.auto_tier)
          v.bad_room v.good_room in
      (record { bad_room = b; good_room = g }, d, u, k)
    where
      minimal_bad : (t : Tier) → t ≡ minimal → is_bad above below t r.rtt r.jitter ≡ false
      minimal_bad t e = rw (e, is_bad) refl

      full_good : (t : Tier) → t ≡ full → is_good above below t r.rtt r.jitter ≡ false
      full_good t e = rw (e, is_good) refl

  tally-cost :
      (rs : List (Report M)) (c : TierController M)
      → Waits c
      → let t = tally rs c in
        Waits t.controller
        × (3 * t.downs + t.controller.session.consecutive_bad_reports
            ≤ c.session.consecutive_bad_reports + t.bads)
        × (5 * t.ups + t.controller.session.consecutive_good_reports
            ≤ c.session.consecutive_good_reports + t.goods)
        × (rank t.controller.session.auto_tier + t.downs ≡ rank c.session.auto_tier + t.ups)
  unfolding tally
  tally-cost [] c v = (v, omega arith, omega arith, omega arith)
  tally-cost (r ∷ rs) c v =
      let (v₁, d, u, k) = after-cost r c v in
      let (v₂, ds, us, ks) = tally-cost rs (after r c) v₁ in
      (v₂, omega arith, omega arith, omega arith)

  -- From counters at 0, over any reports: each step down costs three bad reports of its own and each
  -- step up five good ones, both counters stay under their limits, and the tier moves by single
  -- steps (the rank at the end is the rank at the start, less the steps down, plus the steps up).
  pub tally_lem :
      (rs : List (Report M)) (c : TierController M)
      → c.session.consecutive_bad_reports ≡ 0
      → c.session.consecutive_good_reports ≡ 0
      → let t = tally rs c in
        (3 * t.downs ≤ t.bads)
        × (5 * t.ups ≤ t.goods)
        × (t.controller.session.consecutive_bad_reports < 3)
        × (t.controller.session.consecutive_good_reports < 5)
        × (rank t.controller.session.auto_tier + t.downs ≡ rank c.session.auto_tier + t.ups)
  tally_lem rs c b g =
      let (v, d, u, k) =
        tally-cost rs c (record { bad_room = omega arith; good_room = omega arith }) in
      let low : (tally rs c).controller.session.consecutive_bad_reports ≤ 2 = v.bad_room in
      let few : (tally rs c).controller.session.consecutive_good_reports ≤ 4 = v.good_room in
      (omega arith, omega arith, omega arith, omega arith, k)
