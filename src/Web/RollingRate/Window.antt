-- ===== src/Web/RollingRate/Window.antt =====
-- rolling-rate.ts: the head and the removals against the times themselves.
use exaint.Base.{
  ℕ, zero, suc, ◌+◌, ◌*◌, ◌≤◌, ◌≡◌, refl, sym, ◌∙◌, ap, subst, true, false, ◌&&◌, List, [], ◌∷◌,
  ◌++◌, ltb, length, drop, keep_if, All, All-append, All-drop, Bool-cases, inl, inr, arith,
  length-append, length-drop, drop-add, drop-append,
}
use exaint.Web.RollingRate.{RollingRate, is_recent, expired, compact, prune, record_frame}

-- The times that lie after the cutoff.
unfoldable pub in_window : ℕ → List ℕ → ℕ
in_window now ts = length (keep_if (is_recent now) ts)

abbrev pub Ascending : List ℕ → Type 0
Ascending [] = Unit
Ascending (t ∷ ts) = All (λ (u : ℕ). t ≤ u) ts × Ascending ts

abbrev pub live : RollingRate → List ℕ
live r = drop r.head r.received_at

-- What a counter holds of the times `ts`, at a call at the time `now`.
pub record Holds (ts : List ℕ) (now : ℕ) (r : RollingRate) : Type 0 where
  pub fits : r.head ≤ length r.received_at
  pub counts : (later : ℕ) → now ≤ later → in_window later (live r) ≡ in_window later ts
  pub ascends : Ascending (live r)
  pub past : All (λ (t : ℕ). t ≤ now) (live r)
  pub room : length r.received_at ≤ 2 * length (live r) + 64

Ascending-drop : (n : ℕ) (ts : List ℕ) → Ascending ts → Ascending (drop n ts)
Ascending-drop zero ts h = h
Ascending-drop (suc n) [] h = tt
Ascending-drop (suc n) (t ∷ ts) h = Ascending-drop n ts h.1

Ascending-append :
    (ts : List ℕ) (now : ℕ)
    → Ascending ts
    → All (λ (t : ℕ). t ≤ now) ts
    → Ascending (ts ++ now ∷ [])
Ascending-append [] now h le = (tt, tt)
Ascending-append (t ∷ ts) now h le =
    (All-append (λ (u : ℕ). t ≤ u) ts (now ∷ []) h.0 (le.0, tt), Ascending-append ts now h.1 le.1)

All-later :
    (ts : List ℕ) (now later : ℕ)
    → now ≤ later
    → All (λ (t : ℕ). t ≤ now) ts
    → All (λ (t : ℕ). t ≤ later) ts
All-later [] now later le h = tt
All-later (t ∷ ts) now later le h = (omega arith, All-later ts now later le h.1)

expired-le : (now : ℕ) (ts : List ℕ) → expired now ts ≤ length ts
unfolding expired
expired-le now [] = omega arith
expired-le now (t ∷ ts) = ground (arith, expired-le now ts)

-- What the head passes over is in no later window.
in_window-expired :
    (now later : ℕ) (ts : List ℕ)
    → now ≤ later
    → in_window later (drop (expired now ts) ts) ≡ in_window later ts
unfolding in_window expired keep_if
in_window-expired now later [] le = refl
in_window-expired now later (t ∷ ts) le = elim (Bool-cases (is_recent now t)) [
  | inl recent ↦ rw recent refl
  | inr old ↦
      let old' : is_recent later t ≡ false = ground arith in
      rw (old, old') (in_window-expired now later ts le)
]

-- The times after a recent one are recent.
in_window-all :
    (now t : ℕ) (ts : List ℕ)
    → is_recent now t ≡ true
    → All (λ (u : ℕ). t ≤ u) ts
    → in_window now ts ≡ length ts
unfolding in_window keep_if
in_window-all now t [] h le = refl
in_window-all now t (u ∷ ts) h le =
    let h' : is_recent now u ≡ true = ground arith in rw h' (ap suc (in_window-all now t ts h le.1))

length-expired :
    (now : ℕ) (ts : List ℕ) → Ascending ts → length (drop (expired now ts) ts) ≡ in_window now ts
unfolding in_window expired keep_if
length-expired now [] h = refl
length-expired now (t ∷ ts) h = elim (Bool-cases (is_recent now t)) [
  | inl recent ↦ rw recent (ap suc (sym (in_window-all now t ts recent h.0)))
  | inr old ↦ rw old (length-expired now ts h.1)
]

in_window-append :
    (now : ℕ) (ts us : List ℕ) → in_window now (ts ++ us) ≡ in_window now ts + in_window now us
unfolding in_window keep_if
in_window-append now [] us = omega arith
in_window-append now (t ∷ ts) us = ground (arith, in_window-append now ts us)

-- What `#prune` leaves: the rest is as recent as can be, and the removals keep the room.
pub record Pruned (ts : List ℕ) (now : ℕ) (r : RollingRate) : Type 0 where
  pub holds : Holds ts now r
  pub exact : length (live r) ≡ in_window now ts

compact-live : (r : RollingRate) → live (compact r) ≡ live r
compact-live r = elim (Bool-cases (ltb 64 r.head && ltb (length r.received_at) (r.head * 2))) [
  | inl much ↦ rw much refl
  | inr little ↦ rw little refl
]

compact-fits :
    (r : RollingRate)
    → r.head ≤ length r.received_at
    → (compact r).head ≤ length (compact r).received_at
compact-fits r le = elim (Bool-cases (ltb 64 r.head && ltb (length r.received_at) (r.head * 2))) [
  | inl much ↦ rw much (omega arith)
  | inr little ↦ rw little le
]

compact-room :
    (r : RollingRate)
    → r.head ≤ length r.received_at
    → length (compact r).received_at ≤ 2 * length (live r) + 64
compact-room r le =
    let n = length-drop r.head r.received_at in
    elim (Bool-cases (ltb 64 r.head && ltb (length r.received_at) (r.head * 2))) [
      | inl much ↦ rw much (omega arith)
      | inr little ↦ rw little (ground arith)
    ]

pub prune-Pruned :
    (ts : List ℕ) (last now : ℕ) (r : RollingRate)
    → last ≤ now
    → Holds ts last r
    → Pruned ts now (prune now r)
unfolding prune
prune-Pruned ts last now r le h =
    let k = expired now (live r) in
    let moved : RollingRate = record r { head = r.head + k } in
    let at : live (compact moved) ≡ drop k (live r) =
      compact-live moved ∙ drop-add r.head k r.received_at in
    let n = length-drop r.head r.received_at in
    let few = expired-le now (live r) in
    let fits : r.head + k ≤ length r.received_at = (let f = h.fits in omega arith) in
    record {
      holds = record {
        fits = compact-fits moved fits;
        counts = λ later now-le.
            ap (in_window later) at
            ∙ in_window-expired now later (live r) now-le
            ∙ h.counts later (omega arith);
        ascends = subst Ascending (sym at) (Ascending-drop k (live r) h.ascends);
        past =
            subst (All (λ (t : ℕ). t ≤ now)) (sym at)
              (All-drop (λ (t : ℕ). t ≤ now) k (live r) (All-later (live r) last now le h.past));
        room =
            subst (λ (l : List ℕ). length (compact moved).received_at ≤ 2 * length l + 64)
              (sym (compact-live moved)) (compact-room moved fits);
      };
      exact = ap length at ∙ length-expired now (live r) h.ascends ∙ h.counts now le;
    }

in_window-now : (now : ℕ) → in_window now (now ∷ []) ≡ 1
unfolding in_window keep_if
in_window-now now = ground arith

-- One frame at the time `now`.
pub record_frame-Holds :
    (ts : List ℕ) (last now : ℕ) (r : RollingRate)
    → last ≤ now
    → Holds ts last r
    → Pruned (ts ++ now ∷ []) now (record_frame now r)
unfolding record_frame
record_frame-Holds ts last now r le h =
    let p = prune-Pruned ts last now r le h in
    let old = prune now r in
    let f = p.holds.fits in
    let at = drop-append old.head old.received_at (now ∷ []) f in
    let more = length-append old.received_at (now ∷ []) in
    let longer = ap length at ∙ length-append (live old) (now ∷ []) in
    record {
      holds = record {
        fits = omega (arith, f, more);
        counts = λ later now-le.
            ap (in_window later) at
            ∙ in_window-append later (live old) (now ∷ [])
            ∙ ap (λ (n : ℕ). n + in_window later (now ∷ [])) (p.holds.counts later now-le)
            ∙ sym (in_window-append later ts (now ∷ []));
        ascends =
            subst Ascending (sym at) (Ascending-append (live old) now p.holds.ascends p.holds.past);
        past =
            subst (All (λ (t : ℕ). t ≤ now)) (sym at) (
              All-append (λ (t : ℕ). t ≤ now) (live old) (now ∷ []) p.holds.past (omega arith, tt));
        room = (let m = p.holds.room in omega (arith, longer, more));
      };
      exact =
          longer ∙ omega (arith, p.exact, in_window-now now, in_window-append now ts (now ∷ []));
    }
