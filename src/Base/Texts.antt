-- ===== src/Base/Texts.antt =====
-- Texts: what `format!` joins, decimal numbers, and the quotes in a text.
use Prim.Native.Nat.{ℕ, zero, suc, ◌+◌, ◌/◌, ◌%◌}
use Prim.Native.Char.{code}
use Prim.Native.String.{String}
use Prim.Native.String
use mathlib.Core.Path.{◌≡◌, refl}
use mathlib.Core.List.{List, [], ◌∷◌}
use native.Mathlib.Omega.{arith}
use text.Mathlib.TextLemmas.{nil-append, cons-append}
use doordarshan_media_server.Base.Lists.{All}
use doordarshan_media_server.Base.Tests.{if◌then◌else◌, eqb, ltb}

-- The pieces and the arguments of a `format!`, joined.
unfoldable pub format : List String → String
format [] = ""
format (s ∷ ss) = String.◌++◌ s (format ss)

-- The text at a place of a list, and the empty text past its end.
text_at : List String → ℕ → String
text_at [] i = ""
text_at (s ∷ ss) zero = s
text_at (s ∷ ss) (suc i) = text_at ss i

abbrev numerals : List String
numerals = "0" ∷ "1" ∷ "2" ∷ "3" ∷ "4" ∷ "5" ∷ "6" ∷ "7" ∷ "8" ∷ "9" ∷ []

digit : ℕ → String
unfolding text_at
digit d = text_at numerals d

-- The last `fuel` digits at least; `display` gives as much fuel as the number is large.
digits : ℕ → ℕ → String
digits zero n = digit (n % 10)
digits (suc fuel) n =
    let front = digits fuel (n / 10) in
    if ltb n 10 then digit n else String.◌++◌ front (digit (n % 10))

-- `Display` of an unsigned number.
pub display : ℕ → String
unfolding digits digit
display n = digits n n

-- An `i32`: `negsuc n` is -(n + 1).
pub data ℤ : Type 0 where
  pos : ℕ → ℤ
  negsuc : ℕ → ℤ

-- `Display` of a signed number.
pub display_ℤ : ℤ → String
unfolding display
display_ℤ (pos n) = display n
display_ℤ (negsuc n) = String.◌++◌ "-" (display (suc n))

-- The number of single quotes in a text.
unfoldable pub quotes : String → ℕ
quotes String.[] = 0
quotes (String.◌∷◌ c s) = if eqb (code c) 39 then suc (quotes s) else quotes s

pub quotes-append : (s t : String) → quotes (String.◌++◌ s t) ≡ quotes s + quotes t
unfolding quotes
quotes-append String.[] t = rw nil-append (omega arith)
quotes-append (String.◌∷◌ c s) t = rw cons-append (ground (arith, quotes-append s t))

-- The quotes of each piece, added up.
abbrev pub quotes_of : List String → ℕ
quotes_of [] = 0
quotes_of (s ∷ ss) = quotes s + quotes_of ss

pub quotes-format : (ss : List String) → quotes (format ss) ≡ quotes_of ss
unfolding format quotes
quotes-format [] = refl
quotes-format (s ∷ ss) = rw quotes-append (rw (quotes-format ss))

quotes-text_at : (ss : List String) (i : ℕ) → All (λ s. quotes s ≡ 0) ss → quotes (text_at ss i) ≡ 0
unfolding text_at quotes
quotes-text_at [] i h = refl
quotes-text_at (s ∷ ss) zero h = h.0
quotes-text_at (s ∷ ss) (suc i) h = quotes-text_at ss i h.1

quotes-digit : (d : ℕ) → quotes (digit d) ≡ 0
unfolding digit quotes
quotes-digit d = quotes-text_at numerals d (omega arith)

quotes-digits : (fuel n : ℕ) → quotes (digits fuel n) ≡ 0
unfolding digits
quotes-digits zero n = quotes-digit (n % 10)
quotes-digits (suc f) n = ground (
  arith,
  quotes-digit n,
  quotes-digit (n % 10),
  quotes-append (digits f (n / 10)) (digit (n % 10)),
  quotes-digits f (n / 10),
)

pub quotes-display : (n : ℕ) → quotes (display n) ≡ 0
unfolding display
quotes-display n = quotes-digits n n

pub quotes-display_ℤ : (z : ℤ) → quotes (display_ℤ z) ≡ 0
unfolding display_ℤ
quotes-display_ℤ (pos n) = quotes-display n
quotes-display_ℤ (negsuc n) =
    rw quotes-append (unfold quotes in omega (arith, quotes-display (suc n)))

display_sample : display 5490 ≡ "5490"
unfolding display
display_sample = refl

display_sample_ℤ : display_ℤ (negsuc 11) ≡ "-12"
unfolding display_ℤ
display_sample_ℤ = refl
