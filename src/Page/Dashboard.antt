-- ===== src/Page/Dashboard.antt =====
-- The recipient's dashboard, frontend/app/stream/[id]/page.tsx: loading the stream, unlocking the
-- terms, withdrawing, and what is available. The wallet, the RPC node and the enclave are functions
-- that the page calls; a state of the page is the one after the calls have ended.
use flare_stealthwage.Prelude.{
  ℕ, Bool, ◌||◌, ◌∷◌, [], ◌++◌, ◌==◌, Option, none, some, if◌then◌else◌, ℤ, pos, Text, text,
  text_eq, lower, Result, ok, throw, plain_error, type_error, then_try,
}
use flare_stealthwage.Prelude.Int.{◌-ℤ◌, ltb_ℤ, int_string, parse_bigint}
use flare_stealthwage.Json.Value.{Json, get, as_string}
use flare_stealthwage.Protocol.Viem.{Viem}
use flare_stealthwage.Protocol.Terms.{StreamTerms, decode_terms}
use flare_stealthwage.Protocol.Digests.{build_caller_challenge, withdraw_tag}
use flare_stealthwage.Client.Answer.{
  EnclaveFailure, rejected, Answer, granted, failed, AuthorizationRequest,
}

-- `OnChainStream`
pub record OnChainStream : Type 0 where
  pub employer : Text
  pub recipient : Text
  pub token : Text
  pub commitment : Text
  pub funded : ℤ
  pub withdrawn : ℤ
  pub start_time : ℤ
  pub cancelled : Bool

-- `readTokenMeta`'s result.
pub record TokenMeta : Type 0 where
  pub decimals : ℕ
  pub symbol : Text

pub record Dashboard : Type 0 where
  pub stream : Option OnChainStream
  pub token_meta : Option TokenMeta
  pub sealed : Option Text
  pub chain_error : Option Text
  pub terms : Option StreamTerms
  pub auth : Option Json
  pub failure : Option EnclaveFailure
  pub withdraw_tx : Option Text

abbrev pub zero_address : Text
zero_address = text "0x0000000000000000000000000000000000000000"

-- The reads of `loadChain`.
pub record ChainReads : Type 0 where
  pub read_stream : ℤ → Result OnChainStream
  pub read_token_meta : Text → Result TokenMeta
  pub fetch_encrypted_terms : ℤ → Result (Option Text)

abbrev with_sealed : Result (Option Text) → Dashboard → Dashboard
with_sealed (throw e) d = record d { chain_error = some e.message }
with_sealed (ok sealed) d = record d { sealed = sealed; chain_error = none }

abbrev with_token : Result TokenMeta → Result (Option Text) → Dashboard → Dashboard
with_token (throw e) sealed d = record d { chain_error = some e.message }
with_token (ok m) sealed d = with_sealed sealed (record d { token_meta = some m })

abbrev with_stream : ChainReads → ℤ → Result OnChainStream → Dashboard → Dashboard
with_stream r stream_id (throw e) d = record d { chain_error = some e.message }
with_stream r stream_id (ok s) d =
    if text_eq s.employer zero_address
    then record d {
      chain_error = some (text "Stream #" ++ (int_string stream_id ++ text " does not exist."));
    }
    else with_token (r.read_token_meta s.token) (r.fetch_encrypted_terms stream_id)
        (record d { stream = some s })

-- `loadChain`: what was read before an error stays.
unfoldable pub load_chain : ChainReads → ℤ → Dashboard → Dashboard
load_chain r stream_id d = with_stream r stream_id (r.read_stream stream_id) d

-- `isParty`, for a connected address and a loaded stream.
unfoldable pub is_party : Text → OnChainStream → Bool
is_party who s = text_eq (lower who) (lower s.recipient) || text_eq (lower who) (lower s.employer)

-- `available`
unfoldable pub available : ℤ → ℤ → ℤ → ℤ
available accrued funded withdrawn = (if ltb_ℤ funded accrued then funded else accrued) -ℤ withdrawn

-- `s.split("\n")[0]`
unfoldable pub first_line : Text → Text
first_line [] = []
first_line (c ∷ s) = if c == 10 then [] else c ∷ first_line s

-- What unlocking comes to.
pub data Unlocked : Type 0 where
  opened : StreamTerms → Json → Unlocked
  refused : EnclaveFailure → Unlocked

abbrev text_or_error : Option Text → Result Text
text_or_error (some s) = ok s
text_or_error none = throw (type_error (text "the terms are no hex text"))

-- `res.auth.terms`, of which only a text can be hashed.
abbrev pub terms_of_auth : Json → Result Text
terms_of_auth auth = text_or_error (as_string (get (text "terms") auth))

abbrev wrong_terms : EnclaveFailure
wrong_terms = rejected (text "Enclave returned terms that do not match the on-chain commitment.")

-- The configuration: `CHAIN_ID` and `VAULT_ADDRESS`.
pub record Config : Type 0 where
  pub chain_id : ℕ
  pub vault_address : Text

module _ (v : Viem) (config : Config) (sign_message : Text → Result Text)
    (request_authorization : AuthorizationRequest → Result Answer) where
  -- The comparison of the returned terms with the chain.
  abbrev pub compared : OnChainStream → Json → Text → Result Unlocked
  compared s auth terms_hex =
      if text_eq (lower (v.keccak256 terms_hex)) (lower s.commitment)
      then then_try (decode_terms v terms_hex) (λ t. ok (opened t auth))
      else ok (refused wrong_terms)

  -- What becomes of the enclave's answer.
  unfoldable pub checked : OnChainStream → Answer → Result Unlocked
  checked s (failed failure) = ok (refused failure)
  checked s (granted auth) = then_try (terms_of_auth auth) (compared s auth)

  abbrev auth_request : ℤ → OnChainStream → Text → ℕ → Text → AuthorizationRequest
  auth_request stream_id s sealed now signature = record {
    stream_id = int_string stream_id;
    vault = config.vault_address;
    chain_id = int_string (pos config.chain_id);
    commitment = s.commitment;
    encrypted_terms = sealed;
    issued_at = int_string (pos now);
    caller_signature = signature;
    command = text "AUTH_WITHDRAW";
  }

  -- The challenge that the wallet signs.
  abbrev pub unlock_challenge : ℤ → OnChainStream → ℕ → Result Text
  unlock_challenge stream_id s now = build_caller_challenge v (record {
    chain_id = pos config.chain_id;
    vault = config.vault_address;
    stream_id = stream_id;
    commitment = s.commitment;
    purpose = withdraw_tag v;
    issued_at = pos now;
  })

  -- The request to the enclave with a signature.
  abbrev pub ask : ℤ → OnChainStream → Text → ℕ → Text → Result Answer
  ask stream_id s sealed now signature =
      request_authorization (auth_request stream_id s sealed now signature)

  -- The body of the `try` of `unlock`, at the time `now`.
  unfoldable pub unlocking : ℤ → OnChainStream → Text → ℕ → Result Unlocked
  unlocking stream_id s sealed now = then_try (unlock_challenge stream_id s now) λ challenge.
      then_try (sign_message challenge)
        λ signature. then_try (ask stream_id s sealed now signature) (checked s)

  abbrev applied : Result Unlocked → Dashboard → Dashboard
  applied (throw e) d = record d { failure = some (rejected (first_line e.message)) }
  applied (ok (refused failure)) d = record d { failure = some failure }
  applied (ok (opened t auth)) d = record d { terms = some t; auth = some auth; failure = none }

  -- `unlock`
  unfoldable pub unlock : ℤ → ℕ → Dashboard → Dashboard
  unlock stream_id now d = elim d.stream [
    | none ↦ d
    | some s ↦ elim d.sealed [
      | none ↦ d
      | some [] ↦ d
      | some (c ∷ sealed) ↦ applied (unlocking stream_id s (c ∷ sealed) now) d
    ]
  ]

-- The arguments of the vault's `withdraw`, read from an answer.
pub record WithdrawArgs : Type 0 where
  pub stream_id : ℤ
  pub cumulative_accrued : ℤ
  pub deadline : ℤ
  pub signature : Option Json

-- `BigInt(auth.key)`, at the declared type of the property, which is text; what the server answers has it.
abbrev bigint_field : Text → Json → Result ℤ
bigint_field key auth = then_try (text_or_error (as_string (get key auth))) parse_bigint

unfoldable pub withdraw_args : ℤ → Json → Result WithdrawArgs
withdraw_args stream_id auth = then_try (bigint_field (text "cumulativeAccrued") auth) λ accrued.
    then_try (bigint_field (text "deadline") auth) λ deadline. ok (record {
      stream_id = stream_id;
      cumulative_accrued = accrued;
      deadline = deadline;
      signature = get (text "signature") auth;
    })

-- The transaction's hash, once its receipt says "success".
abbrev mined : Text → Text → Result Text
mined hash status =
    if text_eq status (text "success")
    then ok hash
    else throw (plain_error (text "withdraw reverted"))

abbrev paid_out : (Dashboard → Dashboard) → Result Text → Dashboard → Dashboard
paid_out reload (throw e) d = record d { failure = some (rejected (first_line e.message)) }
paid_out reload (ok hash) d =
    reload (record d { withdraw_tx = some hash; auth = none; failure = none })

-- `withdraw`: `write` sends the transaction, `receipt` gives the status of its receipt, and `reload`
-- is `loadChain`, which catches its own errors.
unfoldable pub withdraw :
    (WithdrawArgs → Result Text)
    → (Text → Result Text)
    → (Dashboard → Dashboard)
    → ℤ
    → Dashboard
    → Dashboard
withdraw write receipt reload stream_id d = elim d.auth [
  | none ↦ d
  | some auth ↦
      paid_out reload
        (then_try (withdraw_args stream_id auth)
          λ args. then_try (write args) λ hash. then_try (receipt hash) (mined hash))
        d
]
