-- ===== src/Server/Unique.antt =====
-- The keys of a map of the relay are all different: what a Go map gives by itself.
use pelagos.Base.{ℕ, ◌≡◌, refl, List, [], ◌∷◌, none, arith}
use pelagos.Base.Maps.{Map, lookup, insert, delete, bytes_equal_iff, lookup-insert, lookup-delete}

unfoldable pub Unique : {V : Type 0} → Map V → Type 0
Unique [] = Unit {0}
Unique ((k, v) ∷ m) = (lookup k m ≡ none) × Unique m

module _ {V : Type 0} where
  pub insert-Unique : (k : List ℕ) (v : V) (m : Map V) → Unique m → Unique (insert k v m)
  unfolding insert Unique lookup
  insert-Unique k v [] u = (refl, tt)
  insert-Unique k v ((j, w) ∷ m) (new, u) = ground (
    arith,
    bytes_equal_iff j k,
    bytes_equal_iff k j,
    insert-Unique k v m u,
    lookup-insert k j v m,
  )

  pub delete-Unique : (k : List ℕ) (m : Map V) → Unique m → Unique (delete k m)
  unfolding delete Unique lookup
  delete-Unique k [] u = tt
  delete-Unique k ((j, w) ∷ m) (new, u) = ground (arith, delete-Unique k m u, lookup-delete k j m)
