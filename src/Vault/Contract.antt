-- ===== src/Vault/Contract.antt =====
-- The whole contract contracts/StreamVault.sol: its streams, its owner and its signer. A caller is
-- never the zero address, which is "".
use flare_stealthwage.Prelude.{
  ℕ, suc, ◌+◌, Bool, false, not, [], ◌==◌, if◌then◌else◌, Text, text, text_eq,
}
use flare_stealthwage.Vault.State.{
  Stream, Call, done, ◌>>=◌, ◌>>◌, require, Moved, exists, fund, withdraw, cancel_stream,
}

-- The contract's storage.
pub record Vault : Type 0 where
  pub owner : Text
  pub tee_signer : Text
  pub next_stream_id : ℕ
  pub streams : ℕ → Stream

-- The row of a key that was never written.
abbrev pub no_stream : Stream
no_stream = record {
  employer = [];
  recipient = [];
  token = [];
  commitment = [];
  funded = 0;
  withdrawn = 0;
  start_time = 0;
  cancelled = false;
}

-- The constructor, called by `sender`.
unfoldable pub deployed : Text → Text → Vault
deployed sender tee_signer = record {
  owner = sender;
  tee_signer = tee_signer;
  next_stream_id = 1;
  streams = λ id. no_stream;
}

-- A successful call: the storage behind it, and what it moved of a token into the vault and out.
pub record Done : Type 0 where
  pub vault : Vault
  pub token : Text
  pub taken : ℕ
  pub given : ℕ

-- A call that moves nothing.
abbrev pub unmoved : Vault → Done
unmoved v = record { vault = v; token = []; taken = 0; given = 0 }

-- `streams[id] = s`
unfoldable pub put : ℕ → Stream → (ℕ → Stream) → ℕ → Stream
put id s streams k = if k == id then s else streams k

-- `setTeeSigner`
unfoldable pub set_tee_signer : Text → Text → Vault → Call Done
set_tee_signer sender signer v = do
  require (text_eq sender v.owner) (text "not owner")
  require (not (text_eq signer [])) (text "zero signer")
  done (unmoved (record v { tee_signer = signer }))

abbrev pub new_stream : Text → Text → Text → Text → ℕ → Stream
new_stream sender recipient token commitment start_time = record {
  employer = sender;
  recipient = recipient;
  token = token;
  commitment = commitment;
  funded = 0;
  withdrawn = 0;
  start_time = start_time;
  cancelled = false;
}

-- `createStream`; the zero commitment is "" too. The id of the new stream is `next_stream_id`.
unfoldable pub create_stream : Text → Text → Text → Text → ℕ → Vault → Call Done
create_stream sender recipient token commitment start_time v = do
  require (not (text_eq recipient [])) (text "zero recipient")
  require (not (text_eq token [])) (text "zero token")
  require (not (text_eq commitment [])) (text "zero commitment")
  done (
      unmoved (record v {
        next_stream_id = suc v.next_stream_id;
        streams =
            put v.next_stream_id (new_stream sender recipient token commitment start_time)
              v.streams;
      }))

-- `revealTerms`, which only logs; `hash` is `keccak256(_terms)`.
unfoldable pub reveal_terms : ℕ → Text → Vault → Call Done
reveal_terms id hash v = do
  require (exists (v.streams id)) (text "no stream")
  require (text_eq hash (v.streams id).commitment) (text "terms do not match commitment")
  done (unmoved v)

-- An operation on the stream `id`, with what it moved.
abbrev pub on_stream : ℕ → Vault → Call Moved → Call Done
on_stream id v call = call >>= λ m. done (record {
  vault = record v { streams = put id m.stream v.streams };
  token = (v.streams id).token;
  taken = m.taken;
  given = m.paid + m.refunded;
})

-- `fund`
unfoldable pub fund_stream : ℕ → Bool → ℕ → Vault → Call Done
fund_stream id transferred amount v = on_stream id v (fund transferred amount (v.streams id))

-- `withdraw`
unfoldable pub withdraw_stream : ℕ → Text → ℕ → Bool → ℕ → ℕ → Vault → Call Done
withdraw_stream id recovered now transferred accrued deadline v =
    on_stream id v (withdraw v.tee_signer recovered now transferred accrued deadline (v.streams id))

-- `cancelStream`
unfoldable pub cancel_the_stream : ℕ → Text → Text → ℕ → Bool → Bool → ℕ → ℕ → Vault → Call Done
cancel_the_stream id recovered sender now paid_out refunded final deadline v = on_stream id v (
    cancel_stream v.tee_signer recovered sender now paid_out refunded final deadline (v.streams id))
