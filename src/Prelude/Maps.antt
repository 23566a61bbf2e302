-- ===== src/Prelude/Maps.antt =====
-- Maps from numbers as association lists: of `HashMap` the code uses `get`, `insert`, `len`,
-- `contains_key` and `clear`.
use Prim.Native.Nat.{ℕ, suc, ◌≤◌}
use mathlib.Core.Path.{◌≡◌, refl, subst}
use mathlib.Core.Bool.{Bool, true, false}
use mathlib.Core.List.{List, [], ◌∷◌}
use mathlib.Core.Option.{Option, none, some}
use native.Mathlib.Omega.{arith}
use mathlib.Core.Logic.{inl, inr}
use byos_service.Prelude.Tests.{◌==◌, ==→eq, Bool-cases, if◌then◌else◌}
use byos_service.Prelude.Lists.{length}

-- `HashMap::get`
unfoldable pub get_key {ℓ} : {V : Type ℓ} → ℕ → List (ℕ × V) → Option V
get_key k [] = none
get_key k ((j, v) ∷ m) = if j == k then some v else get_key k m

-- `HashMap::insert`
unfoldable pub put {ℓ} : {V : Type ℓ} → ℕ → V → List (ℕ × V) → List (ℕ × V)
put k v [] = (k, v) ∷ []
put k v ((j, w) ∷ m) = if j == k then (k, v) ∷ m else (j, w) ∷ put k v m

-- `HashMap::contains_key`
abbrev pub has_key {ℓ} : {V : Type ℓ} → ℕ → List (ℕ × V) → Bool
has_key k m = elim (get_key k m) [ none ↦ false | some v ↦ true ]

module _ {ℓ} {V : Type ℓ} where
  pub get_key-put :
      (k j : ℕ) (v : V) (m : List (ℕ × V))
      → get_key j (put k v m) ≡ (if k == j then some v else get_key j m)
  unfolding get_key put
  get_key-put k j v [] = refl
  get_key-put k j v ((i, w) ∷ m) = ground (arith, get_key-put k j v m)

  pub length-put-le : (k : ℕ) (v : V) (m : List (ℕ × V)) → length (put k v m) ≤ suc (length m)
  unfolding put
  length-put-le k v [] = omega arith
  length-put-le k v ((j, w) ∷ m) = ground (arith, length-put-le k v m)

  pub length-put_known :
      (k : ℕ) (v w : V) (m : List (ℕ × V)) → get_key k m ≡ some w → length (put k v m) ≡ length m
  unfolding get_key put
  length-put_known k v w [] h = cc
  length-put_known k v w ((j, u) ∷ m) h = ground (arith, length-put_known k v w m)

  -- What holds of the new entry and of all old ones holds of all that are found.
  pub get_key-put_keeps {κ} :
      (P : ℕ → V → Type κ) (k : ℕ) (v : V) (m : List (ℕ × V))
      → P k v
      → ((j : ℕ) (w : V) → get_key j m ≡ some w → P j w)
      → (j : ℕ) (w : V) → get_key j (put k v m) ≡ some w
      → P j w
  get_key-put_keeps P k v m new old j w h = elim (Bool-cases (k == j)) [
    | inl y ↦
        let same : v ≡ w = ground (arith, get_key-put k j v m) in
        subst (λ i. P i w) (==→eq k j y) (subst (P k) same new)
    | inr n ↦ old j w (ground (arith, get_key-put k j v m))
  ]
