-- ===== src/Page/Landing.antt =====
-- The load of the landing page, frontend/app/page.tsx.
use flare_stealthwage.Prelude.{
  if◌then◌else◌, Bool, false, Option, none, some, [], ◌∷◌, Text, text_eq, lower, Result, ok, throw,
  then_try,
}
use flare_stealthwage.Protocol.Viem.{Viem}
use flare_stealthwage.Protocol.Terms.{StreamTerms, decode_terms}
use flare_stealthwage.Page.Dashboard.{OnChainStream, TokenMeta}

-- `Loaded`
pub record Loaded : Type 0 where
  pub stream : OnChainStream
  pub terms : Option StreamTerms
  pub commitment_verified : Bool
  pub token_meta : TokenMeta

-- `data` and `error` of the page.
pub record Landing : Type 0 where
  pub loaded : Option Loaded
  pub error : Option Text

module _ (v : Viem) where
  -- Whether revealed terms hash to the commitment; "" counts as none.
  unfoldable pub verified : OnChainStream → Option Text → Bool
  verified s none = false
  verified s (some []) = false
  verified s (some (c ∷ terms_hex)) =
      text_eq (lower (v.keccak256 (c ∷ terms_hex))) (lower s.commitment)

  abbrev decoded : Result StreamTerms → Result (Option StreamTerms)
  decoded (ok t) = ok (some t)
  decoded (throw e) = throw e

  abbrev decoded_text : Option Text → Result (Option StreamTerms)
  decoded_text none = ok none
  decoded_text (some terms_hex) = decoded (decode_terms v terms_hex)

  -- The terms, which are decoded only if they were verified.
  unfoldable pub verified_terms : OnChainStream → Option Text → Result (Option StreamTerms)
  unfolding verified
  verified_terms s terms_hex = if verified s terms_hex then decoded_text terms_hex else ok none

  -- The body of the `try` of `load`, given what the reads resolve to.
  unfoldable pub loading :
      Result OnChainStream → (Text → Result TokenMeta) → Result (Option Text) → Result Loaded
  unfolding verified_terms
  loading stream read_token_meta revealed = then_try stream λ s.
      then_try (read_token_meta s.token) λ m. then_try revealed λ terms_hex.
        then_try (verified_terms s terms_hex) λ terms. ok (record {
          stream = s;
          terms = terms;
          commitment_verified = verified s terms_hex;
          token_meta = m;
        })

  abbrev shown : Result Loaded → Landing → Landing
  shown (ok l) page = record { loaded = some l; error = none }
  shown (throw e) page = record page { error = some e.message }

  -- `load`: an error leaves the data of the last load.
  unfoldable pub load :
      Result OnChainStream → (Text → Result TokenMeta) → Result (Option Text) → Landing → Landing
  unfolding loading
  load stream read_token_meta revealed page = shown (loading stream read_token_meta revealed) page
