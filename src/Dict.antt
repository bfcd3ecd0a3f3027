-- ===== src/Dict.antt =====
-- What the sources use of `std::unordered_map`: an association list under the `operator==` of its
-- keys. Nothing depends on the order or on the hashes.
use dnet_core.Base.{Bool, true, Option, none, some, List, [], ◌∷◌, ◌≡◌, refl, arith, if◌then◌else◌}

-- The `operator==` that a key type brings, with the laws that the container asks of it.
pub record Key {ℓ} (K : Type ℓ) : Type ℓ where
  pub beq : K → K → Bool
  pub beq_refl : (a : K) → beq a a ≡ true
  pub beq_symm : (a b : K) → beq a b ≡ true → beq b a ≡ true
  pub beq_trans : (a b c : K) → beq a b ≡ true → beq b c ≡ true → beq a c ≡ true

module _ {ℓ κ} {K : Type ℓ} {V : Type κ} ⦃key : Key K⦄ where
  -- `find`, with `none` for `end()`.
  unfoldable pub find : K → List (K × V) → Option V
  find k [] = none
  find k ((j, v) ∷ m) = if key.beq j k then some v else find k m

  -- `m[k] = v`, and `m.emplace(k, v)` where `k` is not a key.
  unfoldable pub assign : K → V → List (K × V) → List (K × V)
  assign k v [] = (k, v) ∷ []
  assign k v ((j, w) ∷ m) = if key.beq j k then (j, v) ∷ m else (j, w) ∷ assign k v m

  -- A look-up after a write finds the value at an equal key, and the old one elsewhere.
  pub find-assign :
      (k j : K) (v : V) (m : List (K × V))
      → find j (assign k v m) ≡ (if key.beq k j then some v else find j m)
  unfolding find assign
  find-assign k j v [] = refl
  find-assign k j v ((i, w) ∷ m) = ground (
    arith,
    key.beq_trans i k j,
    key.beq_trans i j k,
    key.beq_symm k j,
    key.beq_symm i k,
    key.beq_trans k i j,
    find-assign k j v m,
  )

  pub find-assign_self : (k : K) (v : V) (m : List (K × V)) → find k (assign k v m) ≡ some v
  find-assign_self k v m = ground (arith, find-assign k k v m, key.beq_refl k)

  -- The later of two writes at a key counts.
  pub assign-assign :
      (k : K) (v w : V) (m : List (K × V)) → assign k v (assign k w m) ≡ assign k v m
  unfolding assign
  assign-assign k v w [] = ground (arith, key.beq_refl k)
  assign-assign k v w ((i, u) ∷ m) = ground (arith, assign-assign k v w m)
