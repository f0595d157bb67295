-- ===== src/Sfu/Consuming/Counts.antt =====
-- How many values of a map satisfy a test, for the consumers of src/mediasoupv1/mod.rs.
use doordarshan_media_server.Base.{
  ℕ, ◌+◌, ◌≤◌, ◌≡◌, refl, String, Bool, List, [], ◌∷◌, arith, if◌then◌else◌,
}
use doordarshan_media_server.Base.Lists.{length}
use doordarshan_media_server.Base.Dict.{Dict, insert, remove, remove_all, extend}
use doordarshan_media_server.Sfu.Consuming.{values_where}

abbrev pub one_if : Bool → ℕ
one_if b = if b then 1 else 0

module _ {ℓ} {V : Type ℓ} where
  abbrev pub count_where : (V → Bool) → Dict V → ℕ
  count_where test m = length (values_where test m)

  pub values_where-eq :
      (f g : V → Bool) (m : Dict V) → ((v : V) → f v ≡ g v) → values_where f m ≡ values_where g m
  unfolding values_where
  values_where-eq f g [] h = refl
  values_where-eq f g (entry ∷ m) h = ground (arith, values_where-eq f g m h, h entry.1)

  pub count_where-insert :
      (test : V → Bool) (k : String) (v : V) (m : Dict V)
      → count_where test (insert k v m) ≤ count_where test m + one_if (test v)
  unfolding values_where insert
  count_where-insert test k v [] = ground arith
  count_where-insert test k v (entry ∷ m) = ground (arith, count_where-insert test k v m)

  pub count_where-extend :
      (test : V → Bool) (m n : Dict V)
      → count_where test (extend m n) ≤ count_where test m + count_where test n
  unfolding values_where extend
  count_where-extend test m [] = omega arith
  count_where-extend test m (entry ∷ n) = ground (
    arith,
    count_where-extend test (insert entry.0 entry.1 m) n,
    count_where-insert test entry.0 entry.1 m,
  )

  pub count_where-remove :
      (test : V → Bool) (k : String) (m : Dict V)
      → count_where test (remove k m) ≤ count_where test m
  unfolding values_where remove
  count_where-remove test k [] = omega arith
  count_where-remove test k (entry ∷ m) = ground (arith, count_where-remove test k m)

  pub count_where-remove_all :
      (test : V → Bool) (ks : List String) (m : Dict V)
      → count_where test (remove_all ks m) ≤ count_where test m
  unfolding remove_all
  count_where-remove_all test [] m = omega arith
  count_where-remove_all test (k ∷ ks) m =
      omega (arith, count_where-remove_all test ks (remove k m), count_where-remove test k m)
