-- ===== src/Page/Employer.antt =====
-- The employer's page, frontend/app/app/page.tsx: the draft of the terms, and the submission. The
-- wallet, the node, eciesjs and viem's `parseUnits` are functions that the page calls; the
-- transactions that it asks the wallet for are kept in their order.
use flare_stealthwage.Prelude.{
  ℕ, ◌&&◌, ◌∷◌, [], ◌++◌, ◌==◌, length, drop, List, Bool, Option, none, some, if◌then◌else◌, ℤ, pos,
  Text, text, text_eq, lower, Result, ok, throw, plain_error, then_try,
}
use flare_stealthwage.Prelude.Int.{ltb_ℤ, int_string, parse_bigint}
use flare_stealthwage.Prelude.Strings.{trim, starts_with}
use flare_stealthwage.Encoding.Hex.{Bytes, all_hex, bytes_to_hex}
use flare_stealthwage.Protocol.Viem.{Viem}
use flare_stealthwage.Protocol.Terms.{StreamTerms, encode_terms}
use flare_stealthwage.Protocol.Rates.{rate_per_day_to_scaled}
use flare_stealthwage.Client.Answer.{bytes_or_error, matched_pairs}
use flare_stealthwage.Page.Dashboard.{first_line}

-- The fields of the form, the connected address and the salt.
pub record Form : Type 0 where
  pub address : Option Text
  pub recipient : Text
  pub token : Text
  pub per_day : Text
  pub total_cap : Text
  pub fund_amount : Text
  pub decimals : ℕ
  pub salt : Text

-- `/^0x[0-9a-fA-F]{40}$/`
unfoldable pub is_address : Text → Bool
is_address s = starts_with (text "0x") s && (length s == 42 && all_hex (drop 2 s))

abbrev pub or_zero : Text → Text
or_zero [] = text "0"
or_zero (c ∷ s) = c ∷ s

abbrev or_null : Result StreamTerms → Option StreamTerms
or_null (ok t) = some t
or_null (throw e) = none

module _ (parse_units : Text → ℕ → Result ℤ) where
  abbrev drafted : Form → Text → ℕ → Result StreamTerms
  drafted f employer now = then_try (parse_units (or_zero f.per_day) f.decimals) λ per_day.
      then_try (parse_units (or_zero f.total_cap) f.decimals) λ total. ok (record {
        employer = employer;
        recipient = trim f.recipient;
        token = f.token;
        rate_per_second = rate_per_day_to_scaled per_day;
        total = total;
        start_time = pos now;
        salt = f.salt;
      })

  -- `draft`, at the time `now`.
  unfoldable pub draft : Form → ℕ → Option StreamTerms
  draft f now = elim f.address [
    | none ↦ none
    | some employer ↦
        if is_address (trim f.recipient) then or_null (drafted f employer now) else none
  ]

-- The transactions that the wallet is asked for, with their arguments.
pub data Transaction : Type 0 where
  create_stream : Text → Text → Text → ℤ → Text → Transaction
  approve : Text → Text → ℤ → Transaction
  fund : ℤ → ℤ → Transaction

-- A log of a receipt.
pub record Log : Type 0 where
  pub address : Text
  pub topics : List Text

pub record Receipt : Type 0 where
  pub status : Text
  pub logs : List Log

-- A part of the submission: what was asked of the wallet so far, and a value or an error.
abbrev pub Run {ℓ} : Type ℓ → Type ℓ
Run A = List Transaction × Result A

abbrev pub after {ℓ} : {A : Type ℓ} → List Transaction → Run A → Run A
after done (more, r) = (done ++ more, r)

infixl 5 ◌>>=◌
abbrev pub ◌>>=◌ {ℓ κ} : {A : Type ℓ} {B : Type κ} → Run A → (A → Run B) → Run B
(sent, ok a) >>= f = after sent (f a)
(sent, throw e) >>= f = (sent, throw e)

abbrev pub lift {ℓ} : {A : Type ℓ} → Result A → Run A
lift r = ([], r)

-- The id that the first fitting log gives, or "".
abbrev id_or : Result ℤ → Text → Text
id_or (ok n) rest = int_string n
id_or (throw e) rest = rest

abbrev id_in : Text → Text → List Text → Text → Text
id_in vault_address address ((c ∷ t0) ∷ t1 ∷ more) rest =
    if text_eq (lower address) (lower vault_address) then id_or (parse_bigint t1) rest else rest
id_in vault_address address topics rest = rest

unfoldable pub stream_id_in : Text → List Log → Text
stream_id_in vault_address [] = []
stream_id_in vault_address (log ∷ logs) =
    id_in vault_address log.address log.topics (stream_id_in vault_address logs)

-- `phase`, `message` and `result` once a submission has ended.
pub data Ended : Type 0 where
  finished : Text → Text → Ended
  errored : Text → Ended

-- What the submission calls.
pub record Services : Type 0 where
  pub viem : Viem
  pub encrypt : Bytes → Result Bytes
  pub parse_units : Text → ℕ → Result ℤ
  pub write : Transaction → Result Text
  pub receipt : Text → Result Receipt
  pub vault_address : Text

module _ (s : Services) where
  -- `encryptedTerms`
  unfoldable pub sealed_terms : StreamTerms → Result Text
  sealed_terms t = then_try (encode_terms s.viem t) λ terms_hex.
      then_try (bytes_or_error (matched_pairs (drop 2 terms_hex)))
        λ plain. then_try (s.encrypt plain) λ sealed. ok (bytes_to_hex sealed)

  abbrev pub send : Transaction → Run Text
  send tx = (tx ∷ [], s.write tx)

  abbrev pub succeeded : Receipt → Result Receipt
  succeeded r =
      if text_eq r.status (text "success")
      then ok r
      else throw (plain_error (text "createStream reverted"))

  -- Approval and funding; of their receipts the status is not read.
  abbrev pub funded : Text → Text → ℤ → Run Receipt
  funded token stream_id amount = do
    approve_hash ← send (approve token s.vault_address amount)
    _ ← lift (s.receipt approve_hash)
    id ← lift (parse_bigint stream_id)
    fund_hash ← send (fund id amount)
    lift (s.receipt fund_hash)

  abbrev pub funded_if : Text → Text → ℤ → Receipt → Run Receipt
  funded_if token [] amount r = lift (ok r)
  funded_if token (c ∷ stream_id) amount r =
      if ltb_ℤ (pos 0) amount then funded token (c ∷ stream_id) amount else lift (ok r)

  -- The body of the `try` of `submit`.
  unfoldable pub submitting : StreamTerms → Text → Text → ℕ → Run (Text × Text)
  submitting t commitment fund_amount decimals = do
    sealed ← lift (sealed_terms t)
    create_hash ← send (create_stream t.recipient t.token commitment t.start_time sealed)
    receipt ← lift (s.receipt create_hash)
    created ← lift (succeeded receipt)
    amount ← lift (s.parse_units (or_zero fund_amount) decimals)
    _ ← funded_if t.token (stream_id_in s.vault_address created.logs) amount created
    lift (ok (stream_id_in s.vault_address created.logs, create_hash))

  abbrev ended : Result (Text × Text) → Ended
  ended (ok (stream_id, hash)) = finished stream_id hash
  ended (throw e) = errored (first_line e.message)

  -- `submit`, for a draft with its commitment.
  unfoldable pub submit : StreamTerms → Text → Text → ℕ → List Transaction × Ended
  unfolding submitting
  submit t commitment fund_amount decimals =
      let (sent, r) = submitting t commitment fund_amount decimals in (sent, ended r)
