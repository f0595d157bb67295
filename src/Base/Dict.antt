-- ===== src/Base/Dict.antt =====
-- `HashMap<String, V>` as an association list. The order of the entries stands for the order of
-- iteration, which the program leaves open.
use Prim.Native.String.{String}
use mathlib.Core.Path.{◌≡◌, refl}
use mathlib.Core.Option.{Option, none, some}
use mathlib.Core.List.{List, [], ◌∷◌}
use native.Mathlib.Omega.{arith}
use text.Mathlib.TextEquality.{eq_iff}
use doordarshan_media_server.Base.Tests.{if◌then◌else◌, ◌==◌}
use doordarshan_media_server.Base.Lists.{contains}

abbrev pub Dict {ℓ} : Type ℓ → Type ℓ
Dict V = List (String × V)

module _ {ℓ} {V : Type ℓ} where
  -- `HashMap::get`
  unfoldable pub lookup : String → Dict V → Option V
  lookup k [] = none
  lookup k ((j, v) ∷ m) = if j == k then some v else lookup k m

  -- No key stands twice.
  abbrev pub IsUnique : Dict V → Type ℓ
  IsUnique [] = Unit
  IsUnique ((k, v) ∷ m) = (lookup k m ≡ none) × IsUnique m

  -- `HashMap::insert`
  unfoldable pub insert : String → V → Dict V → Dict V
  insert key value [] = (key, value) ∷ []
  insert key value (entry ∷ entries) =
      if entry.0 == key then (key, value) ∷ entries else entry ∷ insert key value entries

  -- `HashMap::remove`
  unfoldable pub remove : String → Dict V → Dict V
  remove k [] = []
  remove k ((j, v) ∷ m) = let rest = remove k m in if j == k then rest else (j, v) ∷ rest

  -- `for id in &ids { map.remove(id); }`
  unfoldable pub remove_all : List String → Dict V → Dict V
  remove_all [] m = m
  remove_all (k ∷ ks) m = remove_all ks (remove k m)

  -- `HashMap::extend`
  unfoldable pub extend : Dict V → Dict V → Dict V
  extend m [] = m
  extend m (entry ∷ entries) = extend (insert entry.0 entry.1 m) entries

  pub remove-none : (k : String) (m : Dict V) → lookup k m ≡ none → remove k m ≡ m
  unfolding lookup remove
  remove-none k [] e = refl
  remove-none k ((j, v) ∷ m) e = ground (arith, remove-none k m)

  pub remove_all-nil : (ks : List String) → remove_all ks [] ≡ []
  unfolding remove_all remove
  remove_all-nil [] = refl
  remove_all-nil (k ∷ ks) = remove_all-nil ks

  pub remove_all-cons :
      (ks : List String) (j : String) (v : V) (m : Dict V)
      → remove_all ks ((j, v) ∷ m)
        ≡ (if contains ks j then remove_all ks m else (j, v) ∷ remove_all ks m)
  unfolding remove_all remove
  remove_all-cons [] j v m = refl
  remove_all-cons (k ∷ ks) j v m =
      ground (arith, remove_all-cons ks j v (remove k m), eq_iff j k, eq_iff k j)

  pub lookup-insert :
      (key : String) (value : V) (entries : Dict V) (other : String)
      → lookup other (insert key value entries)
        ≡ (if key == other then some value else lookup other entries)
  unfolding lookup insert
  lookup-insert key value [] other = refl
  lookup-insert key value (entry ∷ entries) other = ground (
    arith,
    lookup-insert key value entries other,
    eq_iff entry.0 key,
    eq_iff entry.0 other,
    eq_iff key other,
  )

  pub lookup-remove_all :
      (keys : List String) (entries : Dict V) (other : String)
      → lookup other (remove_all keys entries)
        ≡ (if contains keys other then none else lookup other entries)
  unfolding lookup
  lookup-remove_all keys [] other = rw remove_all-nil (ground arith)
  lookup-remove_all keys (entry ∷ entries) other = ground (
    arith,
    remove_all-cons keys entry.0 entry.1 entries,
    lookup-remove_all keys entries other,
    eq_iff entry.0 other,
  )
