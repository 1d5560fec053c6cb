-- ===== src/Market/Simulator/Sound/Steps.antt =====
-- generator.ts: how steps that keep the book sound are put together.
use exaint.Base.{ℕ, Bool, true, false, if◌then◌else◌, Result, ok, err}
use exaint.Base.Int.{ℤ, pos, ◌≤ℤ◌}
use exaint.Market.Config.{SymbolConfig}
use exaint.Market.OrderBook.{OrderBook, BookSide}
use exaint.Market.OrderBook.Invariant.{write, set_level_lem}
use exaint.Market.Steps.{Fault, range_error, out_of_draws, Done, Post, Post-bind, ◌>>=◌}
use exaint.Market.Prng.{Draw, next_float, next_boolean}
use exaint.Market.Simulator.{Scene, Scenic, draw, with_draw, write_level}
use exaint.Market.Simulator.Sound.{Sound}

-- From a sound state the step throws no RangeError, and leaves a sound state.
abbrev pub Keeps : {A : Type 0} → SymbolConfig → OrderBook → Scenic A → Type 0
Keeps config base m = (w : Scene) → Sound config base w → Post (m w) (λ _ w'. Sound config base w')

-- The state after a draw.
abbrev pub drawn : ℕ → Scene → Scene
drawn state w = record w { sim = record w.sim { prng = state } }

draw-after :
    {A : Type 0} (w : Scene) (P : A → Type 0) (Q : A → Scene → Type 0) (r : Result Fault (A × ℕ))
    → Post r (λ a _. P a)
    → ((a : A) (state : ℕ) → P a → Q a (drawn state w))
    → Post (with_draw r w) Q
draw-after w P Q (ok r) q h = h r.0 r.1 q
draw-after w P Q (err range_error) q h = q
draw-after w P Q (err out_of_draws) q h = tt

pub draw-Post :
    {A : Type 0} (d : Draw A) (w : Scene) (P : A → Type 0) (Q : A → Scene → Type 0)
    → Post (d w.sim.prng) (λ a _. P a)
    → ((a : A) (state : ℕ) → P a → Q a (drawn state w))
    → Post (draw d w) Q
draw-Post d w P Q p h = draw-after w P Q (d w.sim.prng) p h

pub write_level-Post :
    (s : BookSide) (p q : ℤ) (w : Scene) (Q : Done → Scene → Type 0)
    → pos 0 ≤ℤ q
    → Q tt (record w { book = write s p q w.book })
    → Post (write_level s p q w) Q
write_level-Post s p q w Q h k = rw (set_level_lem s p q w.book h, Post) k

module _ {config : SymbolConfig} {base : OrderBook} where
  pub bind-Keeps :
      {A B : Type 0} (m : Scenic A) (f : A → Scenic B)
      → Keeps config base m
      → ((a : A) → Keeps config base (f a))
      → Keeps config base (m >>= f)
  bind-Keeps m f hm hf w v =
      Post-bind m f w (λ _ w'. Sound config base w') (λ _ w'. Sound config base w') (hm w v)
        (λ a w' v'. hf a w' v')

  pub if-Keeps :
      {A : Type 0} (c : Bool) (m n : Scenic A)
      → Keeps config base m
      → Keeps config base n
      → Keeps config base (if c then m else n)
  if-Keeps true m n hm hn = hm
  if-Keeps false m n hm hn = hn

  pub draw-Keeps :
      {A : Type 0} (d : Draw A)
      → ((state : ℕ) → Post (d state) (λ _ _. Done))
      → Keeps config base (draw d)
  draw-Keeps d h w v =
      draw-Post d w (λ _. Done) (λ _ w'. Sound config base w') (h w.sim.prng) (λ a state p. v)

  pub next_float-Keeps : Keeps config base (draw next_float)
  next_float-Keeps w v = v

  pub next_boolean-Keeps : Keeps config base (draw next_boolean)
  next_boolean-Keeps w v = v
