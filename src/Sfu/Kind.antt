-- ===== src/Sfu/Kind.antt =====
-- `Kind` of src/mediasoupv1/mod.rs: the kinds of media, parsed and printed.
use doordarshan_media_server.Base.{
  ◌≡◌, ◌↔◌, refl, String, [], ◌∷◌, if◌then◌else◌, ◌==◌, Outcome, ok, err, arith, eq_iff, ap, ◌∙◌,
}
use doordarshan_media_server.Base.Texts.{format}
use doordarshan_media_server.Sfu.Platform.{Platform}

pub data Kind : Type 0 where
  video audio screen_share : Kind

-- `Display`
unfoldable pub display_kind : Kind → String
display_kind video = "video"
display_kind audio = "audio"
display_kind screen_share = "screenshare"

module _ (x : Platform) where
  abbrev pub not_valid : String → String
  not_valid input = format ("'" ∷ input ∷ "' is not a valid color" ∷ [])

  -- `from_str` from the text in lower case.
  unfoldable pub kind_of : String → String → Outcome String Kind
  kind_of input lower =
      if lower == "video"
      then ok video
      else if lower == "audio"
      then ok audio
      else if lower == "screenshare"
      then ok screen_share
      else err (not_valid input)

  -- `FromStr`
  unfoldable pub kind_from_str : String → Outcome String Kind
  kind_from_str input = kind_of input (x.to_lowercase input)

  kind_of-display_kind : (input : String) (k : Kind) → kind_of input (display_kind k) ≡ ok k
  unfolding kind_of display_kind
  kind_of-display_kind input video = refl
  kind_of-display_kind input audio = refl
  kind_of-display_kind input screen_share = refl

  kind_of-ok :
      (input lower : String) (k : Kind) → kind_of input lower ≡ ok k → lower ≡ display_kind k
  unfolding kind_of display_kind
  kind_of-ok input lower video h =
      ground (arith, eq_iff lower "video", eq_iff lower "audio", eq_iff lower "screenshare")
  kind_of-ok input lower audio h =
      ground (arith, eq_iff lower "video", eq_iff lower "audio", eq_iff lower "screenshare")
  kind_of-ok input lower screen_share h =
      ground (arith, eq_iff lower "video", eq_iff lower "audio", eq_iff lower "screenshare")

  -- A kind is parsed from a text, whatever its case, exactly if the text in lower case is what the kind
  -- prints; and so what a kind prints parses to it, as the lower case of those texts is theirs.
  pub kind_from_str-display_kind :
      (input : String) (k : Kind)
      → ((j : Kind) → x.to_lowercase (display_kind j) ≡ display_kind j)
      → ((kind_from_str input ≡ ok k) ↔ (x.to_lowercase input ≡ display_kind k))
        × (kind_from_str (display_kind k) ≡ ok k)
  unfolding kind_from_str
  kind_from_str-display_kind input k lower = (
    (
      kind_of-ok input (x.to_lowercase input) k,
      λ e. ap (kind_of input) e ∙ kind_of-display_kind input k,
    ),
    ap (kind_of (display_kind k)) (lower k) ∙ kind_of-display_kind (display_kind k) k,
  )
