-- ===== src/Page/Tests.antt =====
-- The pages at concrete inputs.
use flare_stealthwage.Prelude.{
  [], ◌∷◌, ◌≡◌, ◌↔◌, ◌<◌, refl, Bool, true, false, some, pos, Text, text, text_eq, lower, length,
  Result, ok,
}
use flare_stealthwage.Prelude.Strings.{trim}
use flare_stealthwage.Json.Value.{Json, str, obj, field, end, get, get_field}
use flare_stealthwage.Protocol.Viem.{Viem}
use flare_stealthwage.Protocol.Terms.{decode_terms, terms_of, terms_values}
use flare_stealthwage.Protocol.Digests.{build_caller_challenge}
use flare_stealthwage.Protocol.Sample.{sample_viem}
use flare_stealthwage.Stream.Sample.{sample_terms}
use flare_stealthwage.Client.Answer.{Answer, granted, AuthorizationRequest}
use flare_stealthwage.Vault.State.{Stream, done}
use flare_stealthwage.Vault.State
use flare_stealthwage.Page.Dashboard.{OnChainStream, Config, available, opened, checked, unlocking}
use flare_stealthwage.Page.Verify.{match_, verdict, computed, decoded}
use flare_stealthwage.Page.Landing.{Loaded, loading, verified, verified_terms}
use flare_stealthwage.Page.Employer.{Services, submit}
use flare_stealthwage.Page.Sends.{Reveals, loading-Reveals, Sends, submit-Sends}
use flare_stealthwage.Page.Shown.{
  available-eq-paid, Shows, unlocking-Shows, verdict_iff, decoded-match,
}

abbrev vault_stream : Stream
vault_stream = record {
  employer = text "0xaa";
  recipient = text "0xbb";
  token = text "0xcc";
  commitment = text "0x0102";
  funded = 1000;
  withdrawn = 100;
  start_time = 1000;
  cancelled = false;
}

paid :
    State.withdraw (text "0x11") (text "0x11") 1040 true 400 1640 vault_stream
    ≡ done (record {
      stream = record vault_stream { withdrawn = 400 };
      taken = 0;
      paid = 300;
      refunded = 0;
    })
unfolding State.withdraw text text_eq
paid = refl

available-eq-paid_example : available (pos 400) (pos 1000) (pos 100) ≡ pos 300
available-eq-paid_example =
    available-eq-paid (text "0x11") (text "0x11") 1040 true 400 1640 vault_stream
      (record {
        stream = record vault_stream { withdrawn = 400 };
        taken = 0;
        paid = 300;
        refunded = 0;
      })
      paid

abbrev viem : Viem
viem = sample_viem (terms_values sample_terms)

abbrev config : Config
config = record { chain_id = 114; vault_address = text "0xEE" }

abbrev stream : OnChainStream
stream = record {
  employer = text "0xaa";
  recipient = text "0xbb";
  token = text "0xcc";
  commitment = text "0x01AB";
  funded = pos 1000;
  withdrawn = pos 0;
  start_time = pos 1000;
  cancelled = false;
}

abbrev auth : Json
auth = obj (field (text "terms") (str (text "0x01ab")) end)

abbrev signing : Text → Result Text
signing challenge = ok challenge

abbrev answering : AuthorizationRequest → Result Answer
answering req = ok (granted auth)

unlocked :
    unlocking viem config signing answering (pos 7) stream (text "0x0102") 1040
    ≡ ok (opened sample_terms auth)
unfolding unlocking checked build_caller_challenge sample_viem decode_terms terms_of terms_values
    get get_field text text_eq lower
unlocked = refl

unlocking-Shows_example : Shows viem stream.commitment auth sample_terms
unlocking-Shows_example =
    unlocking-Shows viem config signing answering (pos 7) stream (text "0x0102") 1040 sample_terms
      auth unlocked

abbrev always : Text → Bool
always s = true

verdict_iff_example : (verdict viem always (text " 0x01ab") (some stream) ≡ match_) ↔ (
    (s : OnChainStream) × (some stream ≡ some s)
    × (2 < length (trim (text " 0x01ab")))
    × (always (trim (text " 0x01ab")) ≡ true)
    × (lower (viem.keccak256 (trim (text " 0x01ab"))) ≡ lower s.commitment))
verdict_iff_example = verdict_iff viem always (text " 0x01ab") (some stream)

shown : decoded viem always (text " 0x01ab") (some stream) ≡ some sample_terms
unfolding decoded verdict computed sample_viem decode_terms terms_of terms_values text text_eq lower
    trim
shown = refl

decoded-match_test :
    (verdict viem always (text " 0x01ab") (some stream) ≡ match_)
    × (decode_terms viem (trim (text " 0x01ab")) ≡ ok sample_terms)
decoded-match_test = decoded-match viem always (text " 0x01ab") (some stream) sample_terms shown

loaded : Loaded
unfolding text
loaded = record {
  stream = stream;
  terms = some sample_terms;
  commitment_verified = true;
  token_meta = record { decimals = 6; symbol = text "FXRP" };
}

landing :
    loading viem
      (ok stream)
      (λ token. ok (record { decimals = 6; symbol = text "FXRP" }))
      (ok (some (text "0x01ab")))
    ≡ ok loaded
unfolding loading verified verified_terms sample_viem decode_terms terms_of terms_values text
    text_eq lower loaded
landing = refl

loaded_terms : loaded.terms ≡ some sample_terms
unfolding loaded
loaded_terms = refl

loading-Reveals_example :
    (loaded.commitment_verified ≡ true)
    × Reveals viem stream.commitment (some (text "0x01ab")) sample_terms
loading-Reveals_example =
    loading-Reveals viem stream (λ token. ok (record { decimals = 6; symbol = text "FXRP" }))
      (some (text "0x01ab")) loaded sample_terms landing loaded_terms

abbrev services : Services
services = record {
  viem = viem;
  encrypt = λ bytes. ok bytes;
  parse_units = λ amount decimals. ok (pos 5);
  write = λ tx. ok (text "0x01");
  receipt = λ hash. ok (record {
    status = text "success";
    logs = record { address = text "0xEE"; topics = text "0x53" ∷ text "0x07" ∷ [] } ∷ [];
  });
  vault_address = text "0xee";
}

submit-Sends_example :
    Sends services sample_terms
      (text "0x01ab")
      (submit services sample_terms (text "0x01ab") (text "8") 6).0
submit-Sends_example = submit-Sends services sample_terms (text "0x01ab") (text "8") 6
