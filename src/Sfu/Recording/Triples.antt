-- ===== src/Sfu/Recording/Triples.antt =====
-- What holds of the value and of the state after a call on a recording of src/gstreamer/mod.rs.
use doordarshan_media_server.Base.{String, Outcome, ok, err, panic}
use doordarshan_media_server.Base.Action.{◌>>=◌, resume}
use doordarshan_media_server.Sfu.Platform.{Platform}
use doordarshan_media_server.Sfu.Recording.{Gstreamer}
use doordarshan_media_server.Sfu.Recording.Take.{Recorder}

module _ (x : Platform) where
  abbrev pub State : Type 0
  State = Gstreamer x × x.World

  -- A value that is returned, and the state after it, satisfy a predicate.
  abbrev pub After : {A : Type 0} → (A → State → Type 0) → Outcome String A → State → Type 0
  After Q (ok a) s = Q a s
  After Q (err e) s = Unit {0}
  After Q panic s = Unit {0}

  abbrev pub Gives : {A : Type 0} → (State → Type 0) → Recorder x A → (A → State → Type 0) → Type 0
  Gives P m Q = (s : State) → P s → After Q (m s).0 (m s).1

  pub After-all :
      {A : Type 0} (Q : A → State → Type 0) (o : Outcome String A) (s : State)
      → ((a : A) → Q a s)
      → After Q o s
  After-all Q (ok a) s h = h a
  After-all Q (err e) s h = tt
  After-all Q panic s h = tt

  pub After-map :
      {A : Type 0} (Q R : A → State → Type 0) (o : Outcome String A) (s : State)
      → ((a : A) → Q a s → R a s)
      → After Q o s
      → After R o s
  After-map Q R (ok a) s f h = f a h
  After-map Q R (err e) s f h = tt
  After-map Q R panic s f h = tt

  resume-After :
      {A B : Type 0} (Q : A → State → Type 0) (R : B → State → Type 0) (f : A → Recorder x B)
      (o : Outcome String A) (s : State)
      → After Q o s
      → ((a : A) → Gives (Q a) (f a) R)
      → After R (resume f (o, s)).0 (resume f (o, s)).1
  resume-After Q R f (ok a) s h k = k a s h
  resume-After Q R f (err e) s h k = tt
  resume-After Q R f panic s h k = tt

  pub Gives-bind :
      {A B : Type 0} (P : State → Type 0) (Q : A → State → Type 0) (R : B → State → Type 0)
      (m : Recorder x A) (f : A → Recorder x B)
      → Gives P m Q
      → ((a : A) → Gives (Q a) (f a) R)
      → Gives P (m >>= f) R
  unfolding ◌>>=◌
  Gives-bind P Q R m f h k s p = resume-After Q R f (m s).0 (m s).1 (h s p) k

  -- What does not depend on the state holds after every call.
  pub Gives-same : {A : Type 0} (X : Type 0) (m : Recorder x A) → Gives (λ _. X) m (λ _ _. X)
  Gives-same X m s h = After-all (λ _ _. X) (m s).0 (m s).1 (λ _. h)
