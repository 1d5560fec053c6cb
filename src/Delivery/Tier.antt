-- ===== src/Delivery/Tier.antt =====
-- apps/api/src/websocket/tier-controller.ts. Round-trip times and jitters are numbers of the client,
-- of type `M`; the code only compares them with whole thresholds (`above`, `below`).
pub mod Hysteresis
use exaint.Base.{
  ℕ, ◌+◌, ◌-◌, Bool, true, false, not, ◌&&◌, ◌||◌, Option, none, some, leb, if◌then◌else◌, or_else,
}
use exaint.Protocol.{Tier, full, degraded, minimal, initial_tier}
use exaint.Delivery.Session.{ConnectionSession, effective_tier}

abbrev pub demote_reports : ℕ
demote_reports = 3

abbrev pub promote_reports : ℕ
promote_reports = 5

abbrev pub demote_one_tier_ms : ℕ
demote_one_tier_ms = 15000

abbrev pub force_minimal_ms : ℕ
force_minimal_ms = 30000

pub data TierChangeReason : Type 0 where
  hysteresis missing_reports override : TierChangeReason

pub record TierUpdate : Type 0 where
  pub changed : Bool
  pub auto_tier : Tier
  pub effective : Tier
  pub reason : TierChangeReason

pub record TierController (M : Type 0) : Type 0 where
  pub session : ConnectionSession M
  pub demoted_for_silence : Bool

abbrev pub same_tier : Tier → Tier → Bool
same_tier full full = true
same_tier degraded degraded = true
same_tier minimal minimal = true
same_tier _ _ = false

-- `DEMOTE`; `none` is a missing entry.
abbrev pub demoted : Tier → Option Tier
demoted full = some degraded
demoted degraded = some minimal
demoted minimal = none

abbrev pub promoted : Tier → Tier
promoted minimal = degraded
promoted _ = full

abbrev pub new_controller : {M : Type 0} → ConnectionSession M → TierController M
new_controller session = record {
  session = record session { auto_tier = initial_tier };
  demoted_for_silence = false;
}

unfoldable pub update_of : {M : Type 0} → Tier → TierChangeReason → TierController M → TierUpdate
update_of before reason c = record {
  changed = not (same_tier (effective_tier c.session) before);
  auto_tier = c.session.auto_tier;
  effective = effective_tier c.session;
  reason = reason;
}

unfoldable pub apply_silence : {M : Type 0} → ℕ → TierController M → TierUpdate × TierController M
unfolding update_of
apply_silence now c =
    let since = or_else c.session.last_network_report_at c.session.connected_at in
    let silent_ms = now - since in
    let c' =
      if leb force_minimal_ms silent_ms
      then record c { session = record c.session { auto_tier = minimal } }
      else if leb demote_one_tier_ms silent_ms && not c.demoted_for_silence
      then record c {
        session = record c.session {
          auto_tier = or_else (demoted c.session.auto_tier) c.session.auto_tier;
        };
        demoted_for_silence = true;
      }
      else c in
    (update_of (effective_tier c.session) missing_reports c', c')

unfoldable pub set_override :
    {M : Type 0} → Option Tier → TierController M → TierUpdate × TierController M
unfolding update_of
set_override tier c =
    let c' = record c { session = record c.session { tier_override = tier } } in
    (update_of (effective_tier c.session) override c', c')

module _ {M : Type 0} (above below : M → ℕ → Bool) where
  unfoldable pub is_bad : Tier → M → M → Bool
  is_bad full rtt jitter = above rtt 150 || above jitter 40
  is_bad degraded rtt jitter = above rtt 350 || above jitter 100
  is_bad minimal rtt jitter = false

  unfoldable pub is_good : Tier → M → M → Bool
  is_good full rtt jitter = false
  is_good degraded rtt jitter = below rtt 100 && below jitter 25
  is_good minimal rtt jitter = below rtt 250 && below jitter 70

  -- The counters after a report that is bad, good or neither.
  abbrev pub count_report : Bool → Bool → ConnectionSession M → ConnectionSession M
  count_report bad good s = record s {
    consecutive_bad_reports = if bad then s.consecutive_bad_reports + 1 else 0;
    consecutive_good_reports = if good then s.consecutive_good_reports + 1 else 0;
  }

  abbrev pub move_to : Tier → ConnectionSession M → ConnectionSession M
  move_to tier s = record s {
    auto_tier = tier;
    consecutive_bad_reports = 0;
    consecutive_good_reports = 0;
  }

  abbrev pub demote : ConnectionSession M → ConnectionSession M
  demote s = elim (demoted s.auto_tier) [ none ↦ s | some next ↦ move_to next s ]

  abbrev pub promote : ConnectionSession M → ConnectionSession M
  promote s =
      if same_tier (promoted s.auto_tier) s.auto_tier then s else move_to (promoted s.auto_tier) s

  abbrev pub judge : Bool → Bool → ConnectionSession M → ConnectionSession M
  judge bad good s =
      if bad && leb demote_reports s.consecutive_bad_reports
      then demote s
      else if good && leb promote_reports s.consecutive_good_reports
      then promote s
      else s

  unfoldable pub apply_report : M → M → ℕ → TierController M → TierUpdate × TierController M
  unfolding update_of
  apply_report rtt jitter now c =
      let s = record c.session {
        rtt_ms = rtt;
        jitter_ms = jitter;
        last_network_report_at = some now;
      } in
      let bad = is_bad s.auto_tier rtt jitter in
      let good = is_good s.auto_tier rtt jitter in
      let c' : TierController M = record {
        session = judge bad good (count_report bad good s);
        demoted_for_silence = false;
      } in
      (update_of (effective_tier c.session) hysteresis c', c')
