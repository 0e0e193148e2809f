-- ===== src/Page/Verify.antt =====
-- The audit page, frontend/app/verify/[id]/page.tsx: the verdict on terms that a visitor presents.
-- `isHex` is viem's.
use flare_stealthwage.Prelude.{
  ℤ, ◌∷◌, ◌++◌, text, true, false, ◌&&◌, Bool, Option, none, some, if◌then◌else◌, ltb, length, Text,
  text_eq, lower, Result, ok, throw,
}
use flare_stealthwage.Prelude.Strings.{trim}
use flare_stealthwage.Protocol.Viem.{Viem}
use flare_stealthwage.Protocol.Terms.{StreamTerms, decode_terms}
use flare_stealthwage.Prelude.Int.{int_string}
use flare_stealthwage.Page.Dashboard.{OnChainStream, TokenMeta, zero_address}

-- `Verdict`
pub data Verdict : Type 0 where
  match_ mismatch absent : Verdict

abbrev pub or_null {ℓ} : {A : Type ℓ} → Result A → Option A
or_null (ok a) = some a
or_null (throw e) = none

module _ (v : Viem) (is_hex : Text → Bool) where
  -- `computed`, of trimmed text.
  unfoldable pub computed : Text → Option Text
  computed s = if ltb 2 (length s) && is_hex s then some (v.keccak256 s) else none

  abbrev pub judged : Option Text → Option OnChainStream → Verdict
  judged none s = absent
  judged (some hash) none = mismatch
  judged (some hash) (some s) =
      if text_eq (lower hash) (lower s.commitment) then match_ else mismatch

  -- `verdict`, on the text in the box and the stream, if it was loaded.
  unfoldable pub verdict : Text → Option OnChainStream → Verdict
  verdict terms_hex s = judged (computed (trim terms_hex)) s

  abbrev pub decoded_if : Verdict → Text → Option StreamTerms
  decoded_if match_ s = or_null (decode_terms v s)
  decoded_if _ s = none

  -- `decoded`: the terms that are shown.
  unfoldable pub decoded : Text → Option OnChainStream → Option StreamTerms
  decoded terms_hex s = decoded_if (verdict terms_hex s) (trim terms_hex)

-- `stream`, `meta`, `error` and `loading` of the page.
pub record Audit : Type 0 where
  pub stream : Option OnChainStream
  pub token_meta : Option TokenMeta
  pub error : Option Text
  pub loading : Bool

abbrev with_token : Result TokenMeta → Audit → Audit
with_token (ok m) a = record a { token_meta = some m }
with_token (throw e) a = record a { error = some e.message }

abbrev with_stream : (ℤ → Result OnChainStream) → (Text → Result TokenMeta) → ℤ → Audit → Audit
with_stream read_stream read_token_meta stream_id a = elim (read_stream stream_id) [
  | throw e ↦ record a { error = some e.message }
  | ok s ↦
      if text_eq s.employer zero_address
      then record a {
        stream = none;
        error =
            some
              (text "Stream #" ++ (int_string stream_id ++ text " does not exist in this vault."));
      }
      else with_token (read_token_meta s.token) (record a { stream = some s })
]

-- The effect that loads the on-chain record; a stream id is `none` where `BigInt` throws on it.
unfoldable pub load_record :
    (ℤ → Result OnChainStream) → (Text → Result TokenMeta) → Option ℤ → Audit → Audit
load_record read_stream read_token_meta none a = record a {
  error = some (text "Not a valid stream id.");
  loading = false;
}
load_record read_stream read_token_meta (some stream_id) a =
    record (with_stream read_stream read_token_meta stream_id a) { loading = false }

-- The text in the box after it was seeded: the query's `terms` first, then, for the demo stream, what
-- was revealed.
unfoldable pub seeded : Option Text → Bool → Option Text → Text → Text
seeded (some (c ∷ from_url)) is_demo revealed terms_hex = c ∷ from_url
seeded _ true (some (c ∷ revealed)) terms_hex = c ∷ revealed
seeded _ is_demo revealed terms_hex = terms_hex
