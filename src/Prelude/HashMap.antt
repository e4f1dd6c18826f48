-- ===== src/Prelude/HashMap.antt =====
-- Rust's `HashMap` as an association list. The order of the list is the order in which the map is
-- walked, of which Rust says nothing; what is proved holds for every order.
use mathlib.Core.Path.{◌≡◌, refl, subst}
use mathlib.Core.Logic.{inl, inr}
use mathlib.Core.Bool.{false}
use mathlib.Core.Option
use mathlib.Core.Option.{Option, none, some}
use mathlib.Core.List.{List, [], ◌∷◌}
use native.Mathlib.Omega.{arith}
use infinity_wasm_bridge.Prelude.Tests.{
  Eq, ◌==◌, if◌then◌else◌, Bool-cases, eq_of_some-eq, is_empty, All,
}

module _ {ℓ κ} {K : Type ℓ} ⦃e : Eq K⦄ {V : Type κ} where
  unfoldable pub get : K → List (K × V) → Option V
  get k [] = none
  get k ((j, v) ∷ m) = if j == k then some v else get k m

  unfoldable pub insert : K → V → List (K × V) → List (K × V)
  insert k v [] = (k, v) ∷ []
  insert k v ((j, w) ∷ m) = if j == k then (k, v) ∷ m else (j, w) ∷ insert k v m

  unfoldable pub remove : K → List (K × V) → List (K × V)
  remove k [] = []
  remove k ((j, v) ∷ m) = let rest = remove k m in if j == k then rest else (j, v) ∷ rest

  -- `if let Some(c) = m.get_mut(&k) { *c = f(*c) }`.
  unfoldable pub modify : K → (V → V) → List (K × V) → List (K × V)
  modify k f [] = []
  modify k f ((j, v) ∷ m) = (j, if j == k then f v else v) ∷ modify k f m

  pub get-insert :
      (k j : K) (v : V) (m : List (K × V))
      → get j (insert k v m) ≡ (if k == j then some v else get j m)
  unfolding get insert
  get-insert k j v [] = refl
  get-insert k j v ((i, w) ∷ m) =
      ground (arith, e.equal_iff k j, e.equal_iff i k, e.equal_iff i j, get-insert k j v m)

  pub get-remove :
      (k j : K) (m : List (K × V)) → get j (remove k m) ≡ (if k == j then none else get j m)
  unfolding get remove
  get-remove k j [] = ground arith
  get-remove k j ((i, w) ∷ m) =
      ground (arith, e.equal_iff k j, e.equal_iff i k, e.equal_iff i j, get-remove k j m)

  pub get-modify :
      (k j : K) (f : V → V) (m : List (K × V))
      → get j (modify k f m) ≡ (if k == j then Option.map f (get j m) else get j m)
  unfolding get modify
  get-modify k j f [] = ground arith
  get-modify k j f ((i, w) ∷ m) =
      ground (arith, e.equal_iff k j, e.equal_iff i k, e.equal_iff i j, get-modify k j f m)

  pub is_empty-insert : (k : K) (v : V) (m : List (K × V)) → is_empty (insert k v m) ≡ false
  unfolding insert
  is_empty-insert k v [] = refl
  is_empty-insert k v ((i, w) ∷ m) = ground arith

  pub is_empty-modify :
      (k : K) (f : V → V) (m : List (K × V)) → is_empty (modify k f m) ≡ is_empty m
  unfolding modify
  is_empty-modify k f [] = refl
  is_empty-modify k f ((i, w) ∷ m) = refl

  -- No key twice.
  abbrev pub IsUnique : List (K × V) → Type κ
  IsUnique [] = Unit
  IsUnique ((j, v) ∷ m) = (get j m ≡ none) × IsUnique m

  pub insert-IsUnique : (k : K) (v : V) (m : List (K × V)) → IsUnique m → IsUnique (insert k v m)
  unfolding get insert
  insert-IsUnique k v [] u = (refl, tt)
  insert-IsUnique k v ((i, w) ∷ m) u =
      ground
        (arith, e.equal_iff i k, e.equal_iff k i, get-insert k i v m, insert-IsUnique k v m u.1)

  pub remove-IsUnique : (k : K) (m : List (K × V)) → IsUnique m → IsUnique (remove k m)
  unfolding remove
  remove-IsUnique k [] u = tt
  remove-IsUnique k ((i, w) ∷ m) u =
      ground (arith, e.equal_iff k i, get-remove k i m, remove-IsUnique k m u.1)

  pub modify-IsUnique :
      (k : K) (f : V → V) (m : List (K × V)) → IsUnique m → IsUnique (modify k f m)
  unfolding modify
  modify-IsUnique k f [] u = tt
  modify-IsUnique k f ((i, w) ∷ m) u =
      (ground (arith, get-modify k i f m), modify-IsUnique k f m u.1)

  -- A property of the keys.
  module _ {μ} (P : K → Type μ) where
    pub insert-All :
        (k : K) (v : V) (m : List (K × V))
        → P k
        → All (λ b. P b.0) m
        → All (λ b. P b.0) (insert k v m)
    unfolding insert
    insert-All k v [] p a = (p, tt)
    insert-All k v ((i, w) ∷ m) p a = elim (Bool-cases (i == k)) [
      | inl same ↦ rw (same, insert) (p, a.1)
      | inr other ↦ rw (other, insert) (a.0, insert-All k v m p a.1)
    ]

    pub remove-All : (k : K) (m : List (K × V)) → All (λ b. P b.0) m → All (λ b. P b.0) (remove k m)
    unfolding remove
    remove-All k [] a = tt
    remove-All k ((i, w) ∷ m) a = elim (Bool-cases (i == k)) [
      | inl same ↦ rw (same, remove) (remove-All k m a.1)
      | inr other ↦ rw (other, remove) (a.0, remove-All k m a.1)
    ]

    pub modify-All :
        (k : K) (f : V → V) (m : List (K × V))
        → All (λ b. P b.0) m
        → All (λ b. P b.0) (modify k f m)
    unfolding modify
    modify-All k f [] a = tt
    modify-All k f ((i, w) ∷ m) a = (a.0, modify-All k f m a.1)

    -- A key that lacks the property is not in the map.
    pub get-none_of_All : (k : K) (m : List (K × V)) → ¬ P k → All (λ b. P b.0) m → get k m ≡ none
    unfolding get
    get-none_of_All k [] n a = refl
    get-none_of_All k ((i, w) ∷ m) n a = elim (Bool-cases (i == k)) [
      | inl same ↦ absurd (n (subst P ((e.equal_iff i k).0 same) a.0))
      | inr other ↦ rw (other, get) (get-none_of_All k m n a.1)
    ]

  -- A property of the values.
  pub get-All {μ} :
      (P : V → Type μ) (k : K) (v : V) (m : List (K × V))
      → All (λ b. P b.1) m
      → get k m ≡ some v
      → P v
  unfolding get
  get-All P k v [] a h = cc
  get-All P k v ((i, w) ∷ m) a h = elim (Bool-cases (i == k)) [
    | inl same ↦ subst P (eq_of_some-eq (rw (same, get) at h)) a.0
    | inr other ↦ get-All P k v m a.1 (rw (other, get) at h)
  ]

  pub is_empty_of_get : (k : K) (v : V) (m : List (K × V)) → get k m ≡ some v → is_empty m ≡ false
  unfolding get
  is_empty_of_get k v [] h = cc
  is_empty_of_get k v (b ∷ m) h = refl
