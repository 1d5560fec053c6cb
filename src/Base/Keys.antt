-- ===== src/Base/Keys.antt =====
-- Keys of a `Map`, and what `<` and `===` on them satisfy: the interface of `Base.Map` and
-- `Base.Sort`, with the implementations for numbers, bigints and strings.
use Prim.Native.Nat.{ℕ}
use Prim.Native.String.{String}
use mathlib.Core.Path.{◌≡◌}
use mathlib.Core.Bool.{Bool, true, false}
use mathlib.Core.Logic.{◌↔◌}
use native.Mathlib.Omega.{arith}
use text.Mathlib.Text.{◌==◌ as str_eq}
use text.Mathlib.TextEquality.{eq_iff}
use exaint.Base.Tests.{ltb, ◌==◌, ==_iff}
use exaint.Base.Int.{ℤ, eqb_ℤ, eqb_ℤ_iff, ltb_ℤ, eq_of_parts}

-- `===`.
pub record Eq {ℓ} (A : Type ℓ) : Type ℓ where
  pub beq : A → A → Bool
  pub beq_iff : (a b : A) → (beq a b ≡ true) ↔ (a ≡ b)

-- `<`, a strict total order.
pub record Order {ℓ} (A : Type ℓ) : Type ℓ where
  pub less : A → A → Bool
  pub irrefl : (a : A) → less a a ≡ false
  pub trans : (a b c : A) → less a b ≡ true → less b c ≡ true → less a c ≡ true
  pub total : (a b : A) → less a b ≡ false → less b a ≡ false → a ≡ b

instance abbrev pub nat_eq : Eq ℕ
nat_eq = record { beq = ◌==◌; beq_iff = ==_iff }

instance abbrev pub int_eq : Eq ℤ
int_eq = record { beq = eqb_ℤ; beq_iff = eqb_ℤ_iff }

instance abbrev pub string_eq : Eq String
string_eq = record { beq = str_eq; beq_iff = eq_iff }

pub ltb_irrefl : (a : ℕ) → ltb a a ≡ false
ltb_irrefl a = ground arith

pub ltb_trans : (a b c : ℕ) → ltb a b ≡ true → ltb b c ≡ true → ltb a c ≡ true
ltb_trans a b c h k = ground arith

pub ltb_total : (a b : ℕ) → ltb a b ≡ false → ltb b a ≡ false → a ≡ b
ltb_total a b h k = ground arith

pub ltb_ℤ_irrefl : (a : ℤ) → ltb_ℤ a a ≡ false
ltb_ℤ_irrefl a = ground arith

pub ltb_ℤ_trans : (a b c : ℤ) → ltb_ℤ a b ≡ true → ltb_ℤ b c ≡ true → ltb_ℤ a c ≡ true
ltb_ℤ_trans a b c h k = ground arith

pub ltb_ℤ_total : (a b : ℤ) → ltb_ℤ a b ≡ false → ltb_ℤ b a ≡ false → a ≡ b
ltb_ℤ_total a b h k = eq_of_parts a b (ground arith)

instance abbrev pub nat_order : Order ℕ
nat_order = record { less = ltb; irrefl = ltb_irrefl; trans = ltb_trans; total = ltb_total }

instance abbrev pub int_order : Order ℤ
int_order = record { less = ltb_ℤ; irrefl = ltb_ℤ_irrefl; trans = ltb_ℤ_trans; total = ltb_ℤ_total }
