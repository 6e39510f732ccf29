-- ===== src/Prelude/Map.antt =====
-- JavaScript objects used as dictionaries: association lists in insertion order. Assignment to a
-- present key keeps its place, as it does there.
use Prim.Native.String.{String}
use mathlib.Core.Path.{◌≡◌, refl}
use mathlib.Core.Bool.{Bool, true, ◌&&◌, not}
use mathlib.Core.Option
use mathlib.Core.Option.{Option, none, some}
use mathlib.Core.List.{List, [], ◌∷◌}
use native.Mathlib.Omega.{arith}
use text.Mathlib.Text.{◌==◌}
use text.Mathlib.TextEquality.{eq_iff}
use implement_data_space_pro.Prelude.Tests.{if◌then◌else◌, is_some}

abbrev pub Map {ℓ} : Type ℓ → Type ℓ
Map V = List (String × V)

module _ {ℓ} {V : Type ℓ} where
  -- `o[k]`, undefined when the key is missing.
  unfoldable pub lookup : String → Map V → Option V
  lookup key [] = none
  lookup key ((found, value) ∷ entries) = if found == key then some value else lookup key entries

  -- `o[k] = v`
  unfoldable pub insert : String → V → Map V → Map V
  insert key value [] = (key, value) ∷ []
  insert key value ((found, old) ∷ entries) =
      if found == key then (found, value) ∷ entries else (found, old) ∷ insert key value entries

  -- `delete o[k]`
  unfoldable pub remove : String → Map V → Map V
  remove k [] = []
  remove k ((j, v) ∷ m) = let rest = remove k m in if j == k then rest else (j, v) ∷ rest

  -- A write through the reference that the key holds.
  unfoldable pub modify : String → (V → V) → Map V → Map V
  modify k f [] = []
  modify k f ((j, v) ∷ m) = (j, (if j == k then f v else v)) ∷ modify k f m

  -- The same write to every value.
  unfoldable pub map_values : (V → V) → Map V → Map V
  map_values f [] = []
  map_values f ((j, v) ∷ m) = (j, f v) ∷ map_values f m

  -- A test of every entry.
  unfoldable pub all_entries : (String → V → Bool) → Map V → Bool
  all_entries p [] = true
  all_entries p ((j, v) ∷ m) = p j v && all_entries p m

  pub lookup-insert :
      (key other : String) (value : V) (entries : Map V)
      → lookup other (insert key value entries)
        ≡ (if key == other then some value else lookup other entries)
  unfolding lookup insert
  lookup-insert key other value [] = refl
  lookup-insert key other value ((found, old) ∷ entries) = ground (
    arith,
    lookup-insert key other value entries,
    eq_iff found key,
    eq_iff found other,
    eq_iff key other,
  )

  pub lookup-remove :
      (k j : String) (m : Map V) → lookup j (remove k m) ≡ (if k == j then none else lookup j m)
  unfolding lookup remove
  lookup-remove k j [] = ground arith
  lookup-remove k j ((i, w) ∷ m) =
      ground (arith, eq_iff k j, eq_iff i k, eq_iff i j, lookup-remove k j m)

  pub lookup-modify :
      (k j : String) (f : V → V) (m : Map V)
      → lookup j (modify k f m) ≡ (if k == j then Option.map f (lookup j m) else lookup j m)
  unfolding lookup modify
  lookup-modify k j f [] = ground arith
  lookup-modify k j f ((i, w) ∷ m) =
      ground (arith, eq_iff k j, eq_iff i k, eq_iff i j, lookup-modify k j f m)

  pub lookup-map_values :
      (f : V → V) (j : String) (m : Map V) → lookup j (map_values f m) ≡ Option.map f (lookup j m)
  unfolding lookup map_values
  lookup-map_values f j [] = refl
  lookup-map_values f j ((i, w) ∷ m) = ground (arith, lookup-map_values f j m)

  pub lookup-all_entries :
      (p : String → V → Bool) (k : String) {v : V} (m : Map V)
      → all_entries p m ≡ true
      → lookup k m ≡ some v
      → p k v ≡ true
  unfolding lookup all_entries
  lookup-all_entries p k [] h e = ground arith
  lookup-all_entries p k {v} ((i, w) ∷ m) h e =
      ground (arith, eq_iff i k, lookup-all_entries p k {v = v} m)

  pub all_entries-insert :
      (p : String → V → Bool) (k : String) (v : V) (m : Map V)
      → p k v ≡ true
      → all_entries p m ≡ true
      → all_entries p (insert k v m) ≡ true
  unfolding insert all_entries
  all_entries-insert p k v [] h a = ground arith
  all_entries-insert p k v ((i, w) ∷ m) h a =
      ground (arith, eq_iff i k, all_entries-insert p k v m h)

  pub all_entries-remove :
      (p : String → V → Bool) (k : String) (m : Map V)
      → all_entries p m ≡ true
      → all_entries p (remove k m) ≡ true
  unfolding remove all_entries
  all_entries-remove p k [] a = refl
  all_entries-remove p k ((i, w) ∷ m) a = ground (arith, all_entries-remove p k m)

  pub all_entries-modify :
      (p : String → V → Bool) (k : String) (f : V → V) (m : Map V)
      → ((v : V) → p k v ≡ true → p k (f v) ≡ true)
      → all_entries p m ≡ true
      → all_entries p (modify k f m) ≡ true
  unfolding modify all_entries
  all_entries-modify p k f [] h a = refl
  all_entries-modify p k f ((i, w) ∷ m) h a =
      ground (arith, eq_iff i k, h w, all_entries-modify p k f m h)

  pub all_entries-map_values :
      (p : String → V → Bool) (f : V → V) (m : Map V)
      → ((k : String) (v : V) → p k v ≡ true → p k (f v) ≡ true)
      → all_entries p m ≡ true
      → all_entries p (map_values f m) ≡ true
  unfolding map_values all_entries
  all_entries-map_values p f [] h a = refl
  all_entries-map_values p f ((i, w) ∷ m) h a =
      ground (arith, h i w, all_entries-map_values p f m h)

  -- Each key once, as in every JavaScript object.
  unfoldable pub distinct_keys : Map V → Bool
  distinct_keys [] = true
  distinct_keys ((j, _) ∷ m) = not (is_some (lookup j m)) && distinct_keys m

  pub distinct_keys-insert :
      (k : String) (v : V) (m : Map V)
      → distinct_keys m ≡ true
      → distinct_keys (insert k v m) ≡ true
  unfolding insert distinct_keys
  distinct_keys-insert k v [] h = unfold lookup in refl
  distinct_keys-insert k v ((i, w) ∷ m) h =
      ground (arith, eq_iff i k, eq_iff k i, lookup-insert k i v m, distinct_keys-insert k v m)

  pub distinct_keys-remove :
      (k : String) (m : Map V) → distinct_keys m ≡ true → distinct_keys (remove k m) ≡ true
  unfolding remove distinct_keys
  distinct_keys-remove k [] h = refl
  distinct_keys-remove k ((i, w) ∷ m) h =
      ground (arith, eq_iff i k, eq_iff k i, lookup-remove k i m, distinct_keys-remove k m)

  pub distinct_keys-modify :
      (k : String) (f : V → V) (m : Map V)
      → distinct_keys m ≡ true
      → distinct_keys (modify k f m) ≡ true
  unfolding modify distinct_keys
  distinct_keys-modify k f [] h = refl
  distinct_keys-modify k f ((i, w) ∷ m) h =
      ground (arith, eq_iff k i, lookup-modify k i f m, distinct_keys-modify k f m)

  pub distinct_keys-map_values :
      (f : V → V) (m : Map V) → distinct_keys m ≡ true → distinct_keys (map_values f m) ≡ true
  unfolding map_values distinct_keys
  distinct_keys-map_values f [] h = refl
  distinct_keys-map_values f ((i, w) ∷ m) h =
      ground (arith, lookup-map_values f i m, distinct_keys-map_values f m)

pub ruleset map_laws = (lookup-insert, lookup-remove, lookup-modify, lookup-map_values)
