-- ===== src/Base/Action.antt =====
-- A call that may change a state, return an error or panic. What was written stays written.
use mathlib.Core.Path.{◌≡◌, refl, ap}
use mathlib.Core.Option.{Option, none, some}
use doordarshan_media_server.Base.Outcomes
use doordarshan_media_server.Base.Outcomes.{Outcome, ok, err, panic}
use Prim.Native.String.{String}

abbrev pub Action : Type 0 → Type 0 → Type 0
Action S A = S → Outcome String A × S

module _ {S : Type 0} where
  -- What follows a call, from its result.
  abbrev pub resume :
      {A B : Type 0} → (A → Action S B) → Outcome String A × S → Outcome String B × S
  resume f r = elim r.0 [ ok a ↦ f a r.1 | err e ↦ (err e, r.1) | panic ↦ (panic, r.1) ]

  infixl 5 ◌>>=◌ ◌>>◌
  unfoldable pub ◌>>=◌ : {A B : Type 0} → Action S A → (A → Action S B) → Action S B
  ◌>>=◌ m f s = resume f (m s)

  abbrev pub ◌>>◌ : {A B : Type 0} → Action S A → Action S B → Action S B
  m >> k = m >>= λ _. k

  abbrev pub pure : {A : Type 0} → A → Action S A
  pure a s = (ok a, s)

  abbrev pub fail : {A : Type 0} → String → Action S A
  fail e s = (err e, s)

  abbrev pub panics : {A : Type 0} → Action S A
  panics s = (panic, s)

  abbrev pub gets : {A : Type 0} → (S → A) → Action S A
  gets f s = (ok (f s), s)

  abbrev pub modify : (S → S) → Action S (Unit {0})
  modify f s = (ok tt, f s)

  -- `Option::unwrap`
  abbrev pub unwrap : {A : Type 0} → Option A → Action S A
  unwrap none = panics
  unwrap (some a) = pure a

  -- The error of a call with a text put before it.
  unfoldable pub map_err : {A : Type 0} → (String → String) → Action S A → Action S A
  map_err f m s = (Outcomes.map_err f (m s).0, (m s).1)

  -- After a call that returns a value, the rest runs on what it left.
  pub bind-ok :
      {A B : Type 0} (m : Action S A) (f : A → Action S B) {s s' : S} {a : A}
      → m s ≡ (ok a, s')
      → (m >>= f) s ≡ f a s'
  unfolding ◌>>=◌
  bind-ok m f e = ap (resume f) e

  resumed-state :
      {A B : Type 0} (o : Outcome String A) (b : B) (s : S) → (resume (λ _. pure b) (o, s)).1 ≡ s
  resumed-state (ok a) b s = refl
  resumed-state (err e) b s = refl
  resumed-state panic b s = refl

  -- Nothing is written after a call whose result alone is replaced.
  pub bind-state : {A B : Type 0} (m : Action S A) (b : B) (s : S) → ((m >> pure b) s).1 ≡ (m s).1
  unfolding ◌>>=◌
  bind-state m b s = resumed-state (m s).0 b (m s).1

  pub bind-resume :
      {A B : Type 0} (m : Action S A) (f : A → Action S B) (s : S) → (m >>= f) s ≡ resume f (m s)
  unfolding ◌>>=◌
  bind-resume m f s = refl

  -- And after one that panics, nothing does.
  pub bind-panic :
      {A B : Type 0} (m : Action S A) (f : A → Action S B) {s s' : S}
      → m s ≡ (panic, s')
      → (m >>= f) s ≡ (panic, s')
  unfolding ◌>>=◌
  bind-panic m f e = ap (resume f) e
