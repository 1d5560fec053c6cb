-- ===== src/Market/Steps.antt =====
-- Code that changes a state, throws, and draws numbers until one fits: steps on a state, with the
-- faults as values, and what a step promises about its result.
use exaint.Base.{Bool, true, false, if◌then◌else◌, Result, ok, err}

-- A thrown RangeError, and a loop of draws that was cut off.
pub data Fault : Type 0 where
  range_error out_of_draws : Fault

abbrev pub Done : Type 0
Done = Unit

abbrev pub Step : Type 0 → Type 0 → Type 0
Step S A = S → Result Fault (A × S)

module _ {S A : Type 0} where
  abbrev pub pure : A → Step S A
  pure a s = ok (a, s)

  abbrev pub throw : Fault → Step S A
  throw e s = err e

  abbrev pub gets : (S → A) → Step S A
  gets f s = ok (f s, s)

infixl 5 ◌>>=◌ ◌>>◌
abbrev pub ◌>>=◌ : {S A B : Type 0} → Step S A → (A → Step S B) → Step S B
◌>>=◌ m f s = elim (m s) [ ok r ↦ f r.0 r.1 | err e ↦ err e ]

abbrev pub ◌>>◌ : {S A B : Type 0} → Step S A → Step S B → Step S B
m >> k = m >>= λ _. k

abbrev pub skip : {S : Type 0} → Step S Done
skip s = ok (tt, s)

abbrev pub modify : {S : Type 0} → (S → S) → Step S Done
modify f s = ok (tt, f s)

-- The step throws no RangeError, and where it returns, `Q` holds of what it returns.
abbrev pub Post : {S A : Type 0} → Result Fault (A × S) → (A → S → Type 0) → Type 0
Post (ok r) Q = Q r.0 r.1
Post (err range_error) Q = ⊥
Post (err out_of_draws) Q = Done

module _ {S A : Type 0} where
  pub Post_mono :
      (r : Result Fault (A × S)) (P Q : A → S → Type 0)
      → ((a : A) (s : S) → P a s → Q a s)
      → Post r P
      → Post r Q
  Post_mono (ok r) P Q h p = h r.0 r.1 p
  Post_mono (err range_error) P Q h p = p
  Post_mono (err out_of_draws) P Q h p = tt

Post-after :
    {S A B : Type 0} (r : Result Fault (A × S)) (f : A → Step S B) (P : A → S → Type 0)
    (Q : B → S → Type 0)
    → Post r P
    → ((a : A) (s' : S) → P a s' → Post (f a s') Q)
    → Post (elim r [ ok r ↦ f r.0 r.1 | err e ↦ err e ]) Q
Post-after (ok r) f P Q p h = h r.0 r.1 p
Post-after (err range_error) f P Q p h = p
Post-after (err out_of_draws) f P Q p h = tt

pub Post-bind :
    {S A B : Type 0} (m : Step S A) (f : A → Step S B) (s : S) (P : A → S → Type 0)
    (Q : B → S → Type 0)
    → Post (m s) P
    → ((a : A) (s' : S) → P a s' → Post (f a s') Q)
    → Post ((m >>= f) s) Q
Post-bind m f s P Q p h = Post-after (m s) f P Q p h

pub if-Post :
    {S A : Type 0} (c : Bool) (m n : Step S A) (s : S) (Q : A → S → Type 0)
    → Post (m s) Q
    → Post (n s) Q
    → Post ((if c then m else n) s) Q
if-Post true m n s Q hm hn = hm
if-Post false m n s Q hm hn = hn
