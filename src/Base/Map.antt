-- ===== src/Base/Map.antt =====
-- JavaScript's `Map`: an association list in insertion order. A `set` of a key that is present keeps
-- its place; a `delete` takes the key out. The laws are in the form of lookups.
use mathlib.Core.Path.{◌≡◌, refl}
use mathlib.Core.Bool.{Bool, true, false}
use mathlib.Core.List.{List, [], ◌∷◌, ◌++◌, reverse, reverse-cons, reverse-reverse}
use mathlib.Core.Logic.{inl, inr}
use mathlib.Core.Option.{Option, none, some}
use native.Mathlib.Omega.{arith}
use exaint.Base.Tests.{if◌then◌else◌, Bool-cases}
use exaint.Base.Keys.{Eq}

abbrev pub Map {ℓ κ} : Type ℓ → Type κ → Type (ℓ ⊔ κ)
Map K V = List (K × V)

module _ {ℓ κ} {K : Type ℓ} {V : Type κ} ⦃e : Eq K⦄ where
  unfoldable pub get : K → Map K V → Option V
  get k [] = none
  get k ((j, v) ∷ m) = if e.beq j k then some v else get k m

  unfoldable pub set : K → V → Map K V → Map K V
  set k v [] = (k, v) ∷ []
  set k v ((j, w) ∷ m) = if e.beq j k then (j, v) ∷ m else (j, w) ∷ set k v m

  unfoldable pub delete : K → Map K V → Map K V
  delete k [] = []
  delete k ((j, w) ∷ m) = if e.beq j k then delete k m else (j, w) ∷ delete k m

  unfoldable pub has : K → Map K V → Bool
  has k [] = false
  has k ((j, w) ∷ m) = if e.beq j k then true else has k m

  unfoldable pub keys : Map K V → List K
  keys [] = []
  keys ((k, v) ∷ m) = k ∷ keys m

  unfoldable pub values : Map K V → List V
  values [] = []
  values ((k, v) ∷ m) = v ∷ values m

  -- No key occurs twice, as in every `Map`.
  abbrev pub Unique : Map K V → Type κ
  Unique [] = Unit
  Unique ((k, v) ∷ m) = (get k m ≡ none) × Unique m

  -- The value of the last entry with key `k`.
  unfoldable pub get_last : K → List (K × V) → Option V
  get_last k [] = none
  get_last k ((j, v) ∷ m) = elim (get_last k m) [
    | some w ↦ some w
    | none ↦ if e.beq j k then some v else none
  ]

  pub get-set :
      (k j : K) (v : V) (m : Map K V) → get j (set k v m) ≡ (if e.beq k j then some v else get j m)
  unfolding get set
  get-set k j v [] = refl
  get-set k j v ((i, w) ∷ m) =
      ground (arith, e.beq_iff k j, e.beq_iff i k, e.beq_iff i j, get-set k j v m)

  pub get-delete :
      (k j : K) (m : Map K V) → get j (delete k m) ≡ (if e.beq k j then none else get j m)
  unfolding get delete
  get-delete k j [] = ground arith
  get-delete k j ((i, w) ∷ m) =
      ground (arith, e.beq_iff k j, e.beq_iff i k, e.beq_iff i j, get-delete k j m)

  pub set-Unique : (k : K) (v : V) (m : Map K V) → Unique m → Unique (set k v m)
  unfolding get set
  set-Unique k v [] h = (refl, tt)
  set-Unique k v ((j, w) ∷ m) h =
      ground (arith, e.beq_iff j k, e.beq_iff k j, get-set k j v m, set-Unique k v m h.1)

  pub delete-Unique : (k : K) (m : Map K V) → Unique m → Unique (delete k m)
  unfolding get delete
  delete-Unique k [] h = tt
  delete-Unique k ((j, w) ∷ m) h =
      ground (arith, get-delete k j m, e.beq_iff k j, delete-Unique k m h.1)

  pub has-get : (k : K) (m : Map K V) → has k m ≡ false → get k m ≡ none
  unfolding get has
  has-get k [] h = refl
  has-get k ((j, w) ∷ m) h = ground (arith, has-get k m)

  pub get-none-has : (k : K) (m : Map K V) → get k m ≡ none → has k m ≡ false
  unfolding get has
  get-none-has k [] h = refl
  get-none-has k ((j, w) ∷ m) h = ground (arith, get-none-has k m)

  pub has-get-some : (k : K) (m : Map K V) → has k m ≡ true → (v : V) × (get k m ≡ some v)
  unfolding get has
  has-get-some k [] h = cc
  has-get-some k ((j, w) ∷ m) h = elim (Bool-cases (e.beq j k)) [
    | inl hit ↦ (w, rw hit)
    | inr miss ↦ rw miss (has-get-some k m (ground arith))
  ]

  pub has-set :
      (k j : K) (v : V) (m : Map K V) → has j (set k v m) ≡ (if e.beq k j then true else has j m)
  unfolding has set
  has-set k j v [] = refl
  has-set k j v ((i, w) ∷ m) =
      ground (arith, e.beq_iff k j, e.beq_iff i k, e.beq_iff i j, has-set k j v m)

  pub has-delete :
      (k j : K) (m : Map K V) → has j (delete k m) ≡ (if e.beq k j then false else has j m)
  unfolding has delete
  has-delete k j [] = ground arith
  has-delete k j ((i, w) ∷ m) =
      ground (arith, e.beq_iff k j, e.beq_iff i k, e.beq_iff i j, has-delete k j m)

  pub get-append :
      (k : K) (m n : Map K V) → get k (m ++ n) ≡ elim (get k m) [ some v ↦ some v | none ↦ get k n ]
  unfolding get
  get-append k [] n = refl
  get-append k ((j, v) ∷ m) n = ground (arith, get-append k m n)

  -- Reading the last entry is reading the first one of the reversed list.
  pub get-reverse : (k : K) (m : Map K V) → get k (reverse m) ≡ get_last k m
  unfolding get get_last
  get-reverse k [] = refl
  get-reverse k ((j, v) ∷ m) =
      rw (reverse-cons (j, v) m)
        (ground (arith, get-append k (reverse m) ((j, v) ∷ []), get-reverse k m))

  pub get_last-reverse : (k : K) (m : Map K V) → get_last k (reverse m) ≡ get k m
  get_last-reverse k m = rw (← get-reverse k (reverse m), reverse-reverse m)

  -- With no key twice the two readings agree.
  pub get_last-Unique : (k : K) (m : Map K V) → Unique m → get_last k m ≡ get k m
  unfolding get get_last
  get_last-Unique k [] h = refl
  get_last-Unique k ((j, v) ∷ m) h = ground (arith, e.beq_iff j k, get_last-Unique k m h.1)
