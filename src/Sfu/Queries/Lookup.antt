-- ===== src/Sfu/Queries/Lookup.antt =====
-- What the queries of src/mediasoupv1/mod.rs find in a map after a removal.
use mathlib.Core.Path.{subst}
use doordarshan_media_server.Base.{
  ◌≡◌, refl, sym, ap, String, Bool, true, false, none, some, List, [], ◌∷◌, arith, eq_iff,
  if◌then◌else◌,
}
use doordarshan_media_server.Base.Lists.{All, contains}
use doordarshan_media_server.Base.Dict.{
  Dict, IsUnique, lookup, remove_all, remove_all-nil, remove_all-cons,
}
use doordarshan_media_server.Sfu.Queries.{ids_where}

module _ {ℓ} {V : Type ℓ} (id : V → String) where
  -- Every entry stands under its own id.
  abbrev pub IsKeyed : Dict V → Type 0
  IsKeyed m = All (λ e. id e.1 ≡ e.0) m

  IsKeyed-if : (b : Bool) (m m' : Dict V) → IsKeyed m → IsKeyed m' → IsKeyed (if b then m else m')
  IsKeyed-if true m m' h h' = h
  IsKeyed-if false m m' h h' = h'

  pub IsKeyed-remove_all : (ids : List String) (m : Dict V) → IsKeyed m → IsKeyed (remove_all ids m)
  IsKeyed-remove_all ids [] h = subst IsKeyed (sym (remove_all-nil ids)) h
  IsKeyed-remove_all ids ((k, v) ∷ m) (e, h) =
      let rest = IsKeyed-remove_all ids m h in
      subst IsKeyed (sym (remove_all-cons ids k v m))
        (IsKeyed-if (contains ids k) _ _ rest (e, rest))

  contains-ids_where_cons :
      (test : V → Bool) (k : String) (v : V) (m : Dict V) (j : String)
      → contains (ids_where id test m) j ≡ true
      → contains (ids_where id test ((k, v) ∷ m)) j ≡ true
  unfolding ids_where
  contains-ids_where_cons test k v m j h = ground (arith, h)

  -- Nothing that satisfies the test is left once all ids that do are removed, and maybe more.
  none_left :
      (test : V → Bool) (ids : List String) (m : Dict V)
      → IsKeyed m
      → ((j : String) → contains (ids_where id test m) j ≡ true → contains ids j ≡ true)
      → ids_where id test (remove_all ids m) ≡ []
  unfolding ids_where
  none_left test ids [] keyed h = ap (ids_where id test) (remove_all-nil ids)
  none_left test ids ((k, v) ∷ m) (e, keyed) h =
      let weaker : (j : String) → contains (ids_where id test m) j ≡ true → contains ids j ≡ true =
        λ j c. h j (contains-ids_where_cons test k v m j c) in
      ground (
        arith,
        remove_all-cons ids k v m,
        none_left test ids m keyed weaker,
        h k,
        eq_iff (id v) k,
        e,
      )

  pub ids_where-remove_all :
      (test : V → Bool) (m : Dict V)
      → IsKeyed m
      → ids_where id test (remove_all (ids_where id test m) m) ≡ []
  ids_where-remove_all test m keyed = none_left test (ids_where id test m) m keyed (λ j h. h)

  -- What no entry satisfies, none satisfies after a removal.
  pub none-remove_all :
      (test : V → Bool) (ids : List String) (m : Dict V)
      → ids_where id test m ≡ []
      → ids_where id test (remove_all ids m) ≡ []
  unfolding ids_where
  none-remove_all test ids [] h = ap (ids_where id test) (remove_all-nil ids)
  none-remove_all test ids ((k, v) ∷ m) h =
      ground (arith, remove_all-cons ids k v m, none-remove_all test ids m)

  found-lookup :
      (test : V → Bool) (m : Dict V) (j : String)
      → IsKeyed m
      → lookup j m ≡ none
      → contains (ids_where id test m) j ≡ false
  unfolding ids_where lookup
  found-lookup test [] j keyed h = refl
  found-lookup test ((k, v) ∷ m) j (e, keyed) h =
      ground (arith, found-lookup test m j keyed, eq_iff (id v) j, eq_iff k j, e)

  -- The value under an id that the query finds satisfies its test.
  pub found-test :
      (test : V → Bool) (m : Dict V) (j : String) (v : V)
      → IsKeyed m
      → IsUnique m
      → lookup j m ≡ some v
      → test v ≡ false
      → contains (ids_where id test m) j ≡ false
  unfolding ids_where lookup
  found-test test [] j v keyed unique h fails = refl
  found-test test ((k, w) ∷ m) j v (e, keyed) (alone, unique) h fails = ground (
    arith,
    found-test test m j v keyed unique,
    found-lookup test m j keyed,
    eq_iff (id w) j,
    eq_iff k j,
    e,
    alone,
  )

  -- A removal finds nothing new.
  pub found-remove_all :
      (test : V → Bool) (ids : List String) (m : Dict V) (j : String)
      → contains (ids_where id test m) j ≡ false
      → contains (ids_where id test (remove_all ids m)) j ≡ false
  unfolding ids_where
  found-remove_all test ids [] j h = ap (λ m. contains (ids_where id test m) j) (remove_all-nil ids)
  found-remove_all test ids ((k, v) ∷ m) j h =
      ground (arith, remove_all-cons ids k v m, found-remove_all test ids m j)
