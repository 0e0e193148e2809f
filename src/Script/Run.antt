-- ===== src/Script/Run.antt =====
-- What the scripts have in common: calls of the world outside, each answered in the light of the
-- calls before it, and `must`, which ends the process.
use flare_stealthwage.Prelude.{
  ℕ, ◌+◌, ◌*◌, Bool, true, false, Option, none, some, List, [], ◌∷◌, ◌++◌, ℤ, pos, Text, text,
  text_eq, Result, ok, throw, JsError, type_error, then_try, drop,
}
use flare_stealthwage.Prelude.Int.{ltb_ℤ, parse_bigint}
use flare_stealthwage.Prelude.Strings.{hex_value}
use flare_stealthwage.Prelude.Utf8.{utf8_decode}
use flare_stealthwage.Encoding.Hex.{Bytes}
use flare_stealthwage.Json.Value.{Json, get, as_string}
use flare_stealthwage.Json.Bytes.{parse_json}
use flare_stealthwage.Protocol.Viem.{Viem}

-- The transactions that `writeContract` is asked for, with their arguments.
pub data Transaction : Type 0 where
  create_stream : Text → Text → Text → ℤ → Text → Transaction
  approve : Text → Text → ℤ → Transaction
  fund : ℤ → ℤ → Transaction
  withdraw : ℤ → ℤ → ℤ → Text → Transaction
  cancel_stream : ℤ → ℤ → ℤ → Text → Transaction
  reveal_terms : ℤ → Text → Transaction

-- A call: a transaction, a receipt that is waited for, a read of the chain, a signature, a request to
-- the enclave, or the clock.
pub data Call : Type 0 where
  write : Transaction → Call
  wait : Text → Call
  read_decimals read_symbol : Call
  read_balance : Text → Call
  read_stream : ℤ → Call
  sign : Text → Call
  post : Text → Call
  clock : Call

-- The calls so far, the last one first.
abbrev pub History : Type 0
History = List Call

-- How a script ends, or goes on: with a value, with an error, or by `process.exit(1)` after a message.
pub data Exit {ℓ} (A : Type ℓ) : Type ℓ where
  done : A → Exit A
  failed : JsError → Exit A
  exited : Text → Exit A

abbrev pub Run {ℓ} : Type ℓ → Type ℓ
Run A = History → History × Exit A

abbrev pub continue {ℓ κ} :
    {A : Type ℓ} {B : Type κ} → History × Exit A → (A → Run B) → History × Exit B
continue (h, done a) f = f a h
continue (h, failed e) f = (h, failed e)
continue (h, exited m) f = (h, exited m)

infixl 5 ◌>>=◌ ◌>>◌
unfoldable pub ◌>>=◌ {ℓ κ} : {A : Type ℓ} {B : Type κ} → Run A → (A → Run B) → Run B
(m >>= f) h = continue (m h) f

abbrev pub ◌>>◌ {ℓ κ} : {A : Type ℓ} {B : Type κ} → Run A → Run B → Run B
m >> k = m >>= λ _. k

abbrev pub exit_of {ℓ} : {A : Type ℓ} → Result A → Exit A
exit_of (ok a) = done a
exit_of (throw e) = failed e

unfoldable pub lift {ℓ} : {A : Type ℓ} → Result A → Run A
lift r h = (h, exit_of r)

unfoldable pub pure {ℓ} : {A : Type ℓ} → A → Run A
pure a h = (h, done a)

-- A call that `answer` answers, from the calls before it.
unfoldable pub ask {ℓ} : {A : Type ℓ} → Call → (History → Result A) → Run A
ask c answer h = (c ∷ h, exit_of (answer h))

abbrev pub checked : Bool → Text → Exit (Unit {0})
checked true msg = done tt
checked false msg = exited msg

-- `must`
unfoldable pub must : Bool → Text → Run (Unit {0})
must b msg h = (h, checked b msg)

-- A receipt: its status, and what `decodeEventLog` makes of its logs, the `streamId` of a
-- `StreamCreated`, or nothing for another event or an error.
pub record Receipt : Type 0 where
  pub status : Text
  pub created : List (Option ℤ)

-- The row of `streams`, as far as the scripts read it.
pub record Row : Type 0 where
  pub commitment : Text
  pub cancelled : Bool

-- The response of the enclave, at the type that its body is cast to.
pub record Answer : Type 0 where
  pub succeeded : Bool
  pub http_status : ℕ
  pub status : ℕ
  pub payload : Text
  pub log : Option Text
  pub error_message : Option Text

-- The environment of a script: the chain, the wallet, the enclave, the clock in seconds, and the
-- packages viem and eciesjs.
pub record World : Type 0 where
  pub send : History → Transaction → Result Text
  pub receipt : History → Text → Result Receipt
  pub decimals : History → Result ℕ
  pub symbol : History → Result Text
  pub balance : History → Text → Result ℤ
  pub stream : History → ℤ → Result Row
  pub sign_message : History → Text → Result Text
  pub fetch : History → Text → Result Answer
  pub now : History → Result ℕ
  pub viem : Viem
  pub encrypt : Bytes → Result Bytes
  pub syntax_error : Text → JsError

-- The `streamId` of the last `StreamCreated` among the logs, or what it was before.
unfoldable pub last_created : ℤ → List (Option ℤ) → ℤ
last_created id [] = id
last_created id (none ∷ logs) = last_created id logs
last_created id (some n ∷ logs) = last_created n logs

module _ (w : World) where
  -- `writeContract`
  abbrev pub send_tx : Transaction → Run Text
  send_tx tx = ask (write tx) (λ h. w.send h tx)

  -- `waitForTransactionReceipt`
  abbrev pub wait_for : Text → Run Receipt
  wait_for hash = ask (wait hash) (λ h. w.receipt h hash)

  abbrev pub balance_of : Text → Run ℤ
  balance_of owner = ask (read_balance owner) (λ h. w.balance h owner)

  abbrev pub decimals_of : Run ℕ
  decimals_of = ask read_decimals w.decimals

  abbrev pub symbol_of : Run Text
  symbol_of = ask read_symbol w.symbol

  abbrev pub stream_at : ℤ → Run Row
  stream_at id = ask (read_stream id) (λ h. w.stream h id)

  abbrev pub sign_raw : Text → Run Text
  sign_raw raw = ask (sign raw) (λ h. w.sign_message h raw)

  abbrev pub post_action : Text → Run Answer
  post_action body = ask (post body) (λ h. w.fetch h body)

  -- `Math.floor(Date.now() / 1000)`
  abbrev pub seconds : Run ℕ
  seconds = ask clock w.now

abbrev pub is_success : Receipt → Bool
is_success r = text_eq r.status (text "success")

module _ (w : World) where
  -- A transaction whose receipt has to say "success".
  abbrev pub confirmed : Transaction → (Text → Text) → Run Text
  confirmed tx reverted = do
    hash ← send_tx w tx
    receipt ← wait_for w hash
    must (is_success receipt) (reverted hash)
    pure hash

  -- The creation of a stream, and its id.
  abbrev pub created : Transaction → (Text → Text) → Text → Run ℤ
  created tx reverted missing = do
    hash ← send_tx w tx
    receipt ← wait_for w hash
    must (is_success receipt) (reverted hash)
    must (ltb_ℤ (pos 0) (last_created (pos 0) receipt.created)) missing
    pure (last_created (pos 0) receipt.created)

  -- Approval and funding; of the first receipt the status is not read.
  abbrev pub funded : Text → Text → ℤ → ℤ → Run Text
  funded token vault id amount = do
    hash ← send_tx w (approve token vault amount)
    _ ← wait_for w hash
    confirmed (fund id amount) (λ _. text "fund reverted")

-- What the scripts read from the environment, and the accounts of their keys.
pub record Config : Type 0 where
  pub deployment_key : Option Text
  pub ecies_key : Option Text
  pub vault : Text
  pub chain_id : ℕ
  pub token : Text
  pub employer : Text
  pub recipient : Text
  pub salt : Text

-- `!!value`
abbrev pub is_set : Option Text → Bool
is_set none = false
is_set (some []) = false
is_set (some (c ∷ s)) = true

-- `Buffer.from(s, "hex")`, which stops at the first pair that is no hex.
unfoldable pub buffer_hex : Text → Bytes
buffer_hex [] = []
buffer_hex (c ∷ []) = []
buffer_hex (c ∷ d ∷ s) =
    let more = buffer_hex s in
    elim (hex_value c) [
      | none ↦ []
      | some p ↦ elim (hex_value d) [ none ↦ [] | some q ↦ (p * 16 + q) ∷ more ]
    ]

-- `JSON.parse(Buffer.from(payload.slice(2), "hex").toString("utf-8"))`
unfoldable pub read_auth : (Text → JsError) → Text → Result Json
read_auth syntax_error payload = parse_json syntax_error (utf8_decode (buffer_hex (drop 2 payload)))

-- A property of the answer, which is taken for a text.
abbrev pub text_field : Text → Json → Result Text
text_field key auth = elim (as_string (get key auth)) [
  | none ↦ throw (type_error (key ++ text " is no text"))
  | some s ↦ ok s
]

-- `BigInt(auth.key)`
abbrev pub bigint_of : Text → Json → Result ℤ
bigint_of key auth = then_try (text_field key auth) parse_bigint

-- `v ?? "unknown"`
abbrev pub or_unknown : Option Text → Text
or_unknown none = text "unknown"
or_unknown (some s) = s
