-- ===== src/Script/Check.antt =====
-- frontend/scripts/check-enclave-client.ts: the frontend's client against a running enclave, as the
-- demo recipient and as a stranger.
use flare_stealthwage.Prelude.{
  ℕ, ◌∷◌, ◌++◌, Option, some, ℤ, pos, Text, text, text_eq, lower, Result, JsError,
}
use flare_stealthwage.Prelude.Int.{int_string}
use flare_stealthwage.Json.Value.{Json}
use flare_stealthwage.Protocol.Viem.{Viem}
use flare_stealthwage.Protocol.Terms.{StreamTerms, decode_terms}
use flare_stealthwage.Protocol.Digests.{build_caller_challenge, withdraw_tag}
use flare_stealthwage.Client.Action.{build_action_body}
use flare_stealthwage.Client.Answer.{
  EnclaveFailure, unreachable, rejected, Answer, granted, failed, AuthorizationRequest, Response,
  payload_of, request_authorization,
}
use flare_stealthwage.Page.Dashboard.{OnChainStream, terms_of_auth}
use flare_stealthwage.Script.Run.{
  History, Run, ◌>>=◌, ◌>>◌, ask, lift, pure, must, exited, exit_of, read_stream, post, clock,
  text_field,
}

-- The environment of the script: `readStream` and `fetchEncryptedTerms` of frontend/lib/chain.ts (of
-- the second, Client/Chain is the model), the enclave, the clock in seconds,
-- the accounts of viem for a private key, and its other functions.
pub record Site : Type 0 where
  pub stream : History → ℤ → Result OnChainStream
  pub sealed_terms : History → ℤ → Result (Option Text)
  pub enclave : History → Text → Result Response
  pub now : History → Result ℕ
  pub address_of : Text → Text
  pub sign_message : Text → Text → Result Text
  pub viem : Viem
  pub syntax_error : Text → JsError

-- The configuration: `CHAIN_ID`, `VAULT_ADDRESS` and `DEMO_STREAM_ID`.
pub record Settings : Type 0 where
  pub chain_id : ℕ
  pub vault_address : Text
  pub demo_stream_id : ℤ

-- What was read from the chain, and what the enclave answered to the two requests.
pub record Verified : Type 0 where
  pub stream : OnChainStream
  pub auth : Json
  pub terms : StreamTerms
  pub refusal : EnclaveFailure

abbrev kind_and_detail : EnclaveFailure → Text
kind_and_detail (unreachable detail) =
    text "unreachable: "
    ++ (detail ++ text "\n  (is the extension running?  cd typescript && npm run serve)")
kind_and_detail (rejected detail) = text "rejected: " ++ detail

-- The answer to the first request has to be an authorization,
abbrev authorization_of : Answer → Run Json
authorization_of (granted auth) h = pure auth h
authorization_of (failed failure) h = (h, exited (kind_and_detail failure))

-- and the one to the second must not be.
abbrev refusal_of : Answer → Run EnclaveFailure
refusal_of (failed failure) h = pure failure h
refusal_of (granted auth) h = (h, exited (text "a stranger was authorized — caller-auth is broken"))

-- `sealed`, which must not be `null` nor empty.
abbrev sealed_or_exit : Option Text → Run Text
sealed_or_exit (some (c ∷ sealed)) h = pure (c ∷ sealed) h
sealed_or_exit _ h = (h, exited (text "could not fetch sealed terms from the explorer API"))

module _ (w : Site) (c : Settings) where
  abbrev stream_of : Run OnChainStream
  stream_of = ask (read_stream c.demo_stream_id) (λ h. w.stream h c.demo_stream_id)

  abbrev fetched : Run (Option Text)
  fetched h = (h, exit_of (w.sealed_terms h c.demo_stream_id))

  -- `requestAuthorization` at the enclave, at the time `now`.
  abbrev requested : ℕ → AuthorizationRequest → Run Answer
  requested now req h = (
    post (build_action_body now (text "STREAM") req.command (payload_of req)) ∷ h,
    exit_of (request_authorization w.syntax_error (w.enclave h) now req),
  )

  -- The signature of a key under the challenge, and the enclave's answer to the request with it.
  unfoldable pub request_as : Text → OnChainStream → Text → ℕ → Run Answer
  request_as key stream sealed issued_at = do
    challenge ← lift (
        build_caller_challenge w.viem (record {
          chain_id = pos c.chain_id;
          vault = c.vault_address;
          stream_id = c.demo_stream_id;
          commitment = stream.commitment;
          purpose = withdraw_tag w.viem;
          issued_at = pos issued_at;
        }))
    signature ← lift (w.sign_message key challenge)
    now ← ask clock w.now
    requested now (record {
      stream_id = int_string c.demo_stream_id;
      vault = c.vault_address;
      chain_id = int_string (pos c.chain_id);
      commitment = stream.commitment;
      encrypted_terms = sealed;
      issued_at = int_string (pos issued_at);
      caller_signature = signature;
      command = text "AUTH_WITHDRAW";
    })

  -- The checks of an authorization; its signature is printed in part, at its declared type, which is
  -- text.
  unfoldable pub check_terms : OnChainStream → Json → Run StreamTerms
  check_terms stream auth = do
    _ ← lift (text_field (text "signature") auth)
    terms_hex ← lift (terms_of_auth auth)
    must (text_eq (lower (w.viem.keccak256 terms_hex)) (lower stream.commitment))
        (text "returned terms do not hash to the on-chain commitment")
    lift (decode_terms w.viem terms_hex)

  -- The accounts' keys are hashes of texts.
  abbrev demo_recipient_key : Text
  demo_recipient_key = w.viem.keccak_text (text "stealthwage-demo-alice-v1")

  abbrev stranger_key : Text
  stranger_key = w.viem.keccak_text (text "not-a-party")

  -- `main`
  unfoldable pub check_client : Run Verified
  unfolding request_as check_terms
  check_client = do
    stream ← stream_of
    must (text_eq (lower stream.recipient) (lower (w.address_of demo_recipient_key))) (
        text "demo recipient mismatch: chain says "
        ++ (stream.recipient ++ (text ", derived " ++ w.address_of demo_recipient_key)))
    sealed ← fetched
    sealed ← sealed_or_exit sealed
    issued_at ← ask clock w.now
    answer ← request_as demo_recipient_key stream sealed issued_at
    auth ← authorization_of answer
    terms ← check_terms stream auth
    denied ← request_as stranger_key stream sealed issued_at
    refusal ← refusal_of denied
    pure (record { stream = stream; auth = auth; terms = terms; refusal = refusal })
