-- ===== src/Common/Assoc/Laws.antt =====
-- The updates of a map and the uniqueness of its keys, and a loop over the map.
use mathlib.Core.Path.{◌≡◌, refl}
use mathlib.Core.List.{List, [], ◌∷◌}
use mathlib.Core.Option.{Option, none, some}
use native.Mathlib.Omega.{arith}
use server_monitor.Common.Assoc.{
  lookup, insert, delete, update_all, UniqueKeys, lookup-insert, lookup-delete,
}

abbrev pub bind_opt {ℓ} : {A B : Type ℓ} → Option A → (A → Option B) → Option B
bind_opt none f = none
bind_opt (some a) f = f a

module _ {ℓ} {K V : Type ℓ} (dec : Discrete K) where
  pub insert-UniqueKeys :
      (k : K) (v : V) (m : List (K × V)) → UniqueKeys dec m → UniqueKeys dec (insert dec k v m)
  unfolding insert lookup
  insert-UniqueKeys k v [] u = (refl, tt)
  insert-UniqueKeys k v ((i, w) ∷ m) u =
      ground (arith, insert-UniqueKeys k v m u.1, lookup-insert dec k i v m)

  pub delete-UniqueKeys :
      (k : K) (m : List (K × V)) → UniqueKeys dec m → UniqueKeys dec (delete dec k m)
  unfolding delete
  delete-UniqueKeys k [] u = tt
  delete-UniqueKeys k ((i, w) ∷ m) u =
      ground (arith, delete-UniqueKeys k m u.1, lookup-delete dec k i m)

  -- Over unique keys, the entry of a key after the loop is the loop's result on it.
  pub lookup-update_all :
      (f : V → Option V) (k : K) (m : List (K × V))
      → UniqueKeys dec m
      → lookup dec k (update_all f m) ≡ bind_opt (lookup dec k m) f
  unfolding lookup update_all
  lookup-update_all f k [] u = refl
  lookup-update_all f k ((i, w) ∷ m) u = ground (arith, lookup-update_all f k m u.1)

  pub update_all-UniqueKeys :
      (f : V → Option V) (m : List (K × V)) → UniqueKeys dec m → UniqueKeys dec (update_all f m)
  unfolding update_all
  update_all-UniqueKeys f [] u = tt
  update_all-UniqueKeys f ((i, w) ∷ m) u =
      ground (arith, update_all-UniqueKeys f m u.1, lookup-update_all f i m u.1)
