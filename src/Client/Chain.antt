-- ===== src/Client/Chain.antt =====
-- frontend/lib/chain.ts: the block window of `readRevealedTerms`, the event of a stream's creation
-- and the queries for it. The RPC node and the explorer are functions that the queries call.
use flare_stealthwage.Prelude.{
  ℕ, ◌+◌, ◌-◌, [], ◌∷◌, ◌++◌, drop, take, length, replicate, List, Option, none, some,
  if◌then◌else◌, ltb, leb, ◌&&◌, ◌==◌, Bool, false, ℤ, pos, negsuc, Text, text, text_eq, decimal,
  lower, Result, ok, throw, plain_error, type_error, then_try,
}
use flare_stealthwage.Prelude.Int.{parse_bigint}
use flare_stealthwage.Protocol.Viem.{Viem, AbiType, address, bytes32, uint64, bytes, AbiValue, hex}
use flare_stealthwage.Client.Numbers.{parse_int_hex}

-- A block window, both ends included.
pub record Range : Type 0 where
  pub from_block : ℕ
  pub to_block : ℕ

abbrev pub span : ℕ
span = 10

-- `DEMO_REVEAL_BLOCK` where it is a block of the chain, and the head where it is not.
unfoldable pub anchor : ℤ → ℕ → ℕ
anchor (pos n) head = if ltb 0 n && leb n head then n else head
anchor (negsuc n) head = head

-- The window around the anchor.
unfoldable pub range_of : ℤ → ℕ → Range
unfolding anchor
range_of reveal_block head =
    let a = anchor reveal_block head in
    record {
      from_block = if ltb span a then a - span else 0;
      to_block = if ltb head (a + span) then head else a + span;
    }

-- `logs[logs.length - 1]?.args?.terms ?? null`, each log being what it has for `args.terms`.
unfoldable pub last_terms : List (Option Text) → Option Text
last_terms [] = none
last_terms (terms ∷ []) = terms
last_terms (terms ∷ next ∷ logs) = last_terms (next ∷ logs)

-- `readRevealedTerms`, given the head of the chain and `getLogs` on a window.
unfoldable pub read_revealed_terms :
    ℤ → ℕ → (Range → Result (List (Option Text))) → Result (Option Text)
read_revealed_terms reveal_block head get_logs =
    then_try (get_logs (range_of reveal_block head)) λ logs. ok (last_terms logs)

-- The last `n` characters, `a.slice(-n)`.
abbrev last_units : ℕ → Text → Text
last_units n a = drop (length a - n) a

-- `short`
unfoldable pub short : Text → ℕ → Text
short a n = take (n + 2) a ++ (0x2026 ∷ last_units 4 a)

-- `CreatedLog`; a block number is `none` where it is `NaN`.
pub record CreatedLog : Type 0 where
  pub stream_id : ℤ
  pub employer : Text
  pub recipient : Text
  pub encrypted_terms : Text
  pub block_number : Option ℤ

-- A log as the explorer gives it.
pub record RawLog : Type 0 where
  pub topics : List Text
  pub payload : Text
  pub block_number : Text

abbrev pub created_abi : List AbiType
created_abi = address ∷ bytes32 ∷ uint64 ∷ bytes ∷ []

-- The topics behind the first three; a missing one makes the reading of it throw.
abbrev created : RawLog → List Text → Text → Result CreatedLog
created log (t0 ∷ t1 ∷ t2 ∷ t3 ∷ more) encrypted_terms = then_try (parse_bigint t1) λ stream_id.
    ok (record {
      stream_id = stream_id;
      employer = text "0x" ++ drop 26 t2;
      recipient = text "0x" ++ drop 26 t3;
      encrypted_terms = encrypted_terms;
      block_number = parse_int_hex log.block_number;
    })
created log topics encrypted_terms = throw (type_error (text "a topic is undefined"))

-- The fourth of the decoded values.
abbrev sealed_terms : List AbiValue → Result Text
sealed_terms (a ∷ b ∷ c ∷ hex terms ∷ more) = ok terms
sealed_terms _ = throw (plain_error (text "decoded values do not fit"))

abbrev or_null : Result CreatedLog → Option CreatedLog
or_null (ok log) = some log
or_null (throw e) = none

-- `decodeCreatedLog`
unfoldable pub decode_created_log : Viem → RawLog → Option CreatedLog
decode_created_log v log = or_null (
    then_try (v.decode_abi created_abi log.payload)
      λ values. then_try (sealed_terms values) (created log log.topics))

-- The logs that decode, in their order.
unfoldable pub decoded_logs : Viem → List RawLog → List CreatedLog
decoded_logs v [] = []
decoded_logs v (log ∷ logs) = kept (decode_created_log v log) (decoded_logs v logs)
  where
    kept : Option CreatedLog → List CreatedLog → List CreatedLog
    kept none rest = rest
    kept (some l) rest = l ∷ rest

-- The explorer's answer: `status` of the body, and its `result` where it is an array.
pub record ExplorerBody : Type 0 where
  pub status : Text
  pub result : Option (List RawLog)

pub record ExplorerResponse : Type 0 where
  pub succeeded : Bool
  pub status : ℕ
  pub body : Result ExplorerBody

unfoldable pub body_logs : Viem → ExplorerBody → List CreatedLog
body_logs v body = elim body.result [
  | none ↦ []
  | some logs ↦ if text_eq body.status (text "1") then decoded_logs v logs else []
]

abbrev pub stream_created_topic : Text
stream_created_topic = text "0x53c8067c6ec448936f0de64df8f0359d0a324be1a35dcf3150a229bf13312a28"

-- `===` of two `bigint`s.
abbrev pub same_int : ℤ → ℤ → Bool
same_int (pos a) (pos b) = a == b
same_int (negsuc a) (negsuc b) = a == b
same_int _ _ = false

module _ (v : Viem) (explorer vault_address : Text) (fetch : Text → Result ExplorerResponse) where
  abbrev logs_url : Text → Text
  logs_url extra_params =
      explorer
      ++ (text "/api?module=logs&action=getLogs&fromBlock=1&toBlock=latest&address="
          ++ (vault_address ++ (text "&topic0=" ++ (stream_created_topic ++ extra_params))))

  -- `queryCreatedLogs`
  unfoldable pub query_created_logs : Text → Result (List CreatedLog)
  query_created_logs extra_params = then_try (fetch (logs_url extra_params)) λ res.
      if res.succeeded
      then then_try res.body (λ body. ok (body_logs v body))
      else throw (plain_error (text "explorer API " ++ decimal res.status))

  -- The terms of the first log for a stream.
  unfoldable pub terms_for : ℤ → List CreatedLog → Option Text
  terms_for stream_id [] = none
  terms_for stream_id (log ∷ logs) =
      let rest = terms_for stream_id logs in
      if same_int log.stream_id stream_id then some log.encrypted_terms else rest

  -- `fetchEncryptedTerms`
  unfoldable pub fetch_encrypted_terms : ℤ → Result (Option Text)
  fetch_encrypted_terms stream_id =
      then_try (query_created_logs []) λ logs. ok (terms_for stream_id logs)

  -- `s.padStart(64, "0")`
  abbrev padded_topic : Text → Text
  padded_topic s = replicate (64 - length s) b'0' ++ s

  -- `fetchStreamsForRecipient`
  unfoldable pub fetch_streams_for_recipient : Text → Result (List CreatedLog)
  fetch_streams_for_recipient who =
      query_created_logs
        (text "&topic3=0x" ++ (padded_topic (drop 2 (lower who)) ++ text "&topic0_3_opr=and"))
