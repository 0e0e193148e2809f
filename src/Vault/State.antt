-- ===== src/Vault/State.antt =====
-- The contract contracts/StreamVault.sol: one stream's record and the operations on it. Tokens and
-- signatures are checked by other code: a transfer succeeds or fails as told, and `recovered` is
-- the address that `_recoverEthSigned` gives for the digest.
use flare_stealthwage.Prelude.{
  ℕ, ◌+◌, ◌-◌, ◌^◌, Bool, true, false, not, [], ltb, leb, if◌then◌else◌, Text, text, text_eq,
}

-- `struct Stream`. The zero address, of a stream that was never created, is "".
pub record Stream : Type 0 where
  pub employer : Text
  pub recipient : Text
  pub token : Text
  pub commitment : Text
  pub funded : ℕ
  pub withdrawn : ℕ
  pub start_time : ℕ
  pub cancelled : Bool

-- A call succeeds with a value, or reverts with a reason and changes nothing.
pub data Call {ℓ} (A : Type ℓ) : Type ℓ where
  done : A → Call A
  revert : Text → Call A

infixl 5 ◌>>=◌ ◌>>◌
abbrev pub ◌>>=◌ {ℓ κ} : {A : Type ℓ} {B : Type κ} → Call A → (A → Call B) → Call B
done a >>= f = f a
revert reason >>= f = revert reason

abbrev pub ◌>>◌ {ℓ} : {B : Type ℓ} → Call (Unit {0}) → Call B → Call B
m >> k = m >>= λ _. k

-- `require`
abbrev pub require : Bool → Text → Call (Unit {0})
require true reason = done tt
require false reason = revert reason

-- What a call moves: from the caller into the vault, to the recipient, and to the employer.
pub record Moved : Type 0 where
  pub stream : Stream
  pub taken : ℕ
  pub paid : ℕ
  pub refunded : ℕ

abbrev pub exists : Stream → Bool
exists s = not (text_eq s.employer [])

abbrev pub min_of : ℕ → ℕ → ℕ
min_of a b = if ltb a b then a else b

-- `fund`; `transferred` is the result of `transferFrom`. The addition to a uint128 is checked.
unfoldable pub fund : Bool → ℕ → Stream → Call Moved
fund transferred amount s = do
  require (exists s) (text "no stream")
  require (not s.cancelled) (text "cancelled")
  require (ltb 0 amount) (text "zero amount")
  require (ltb (s.funded + amount) (2 ^ 128)) (text "overflow")
  require transferred (text "transferFrom failed")
  done (record {
    stream = record s { funded = s.funded + amount };
    taken = amount;
    paid = 0;
    refunded = 0;
  })

-- `withdraw` at the time `now`, where the digest over `accrued` and `deadline` recovers to
-- `recovered`.
unfoldable pub withdraw : Text → Text → ℕ → Bool → ℕ → ℕ → Stream → Call Moved
withdraw tee_signer recovered now transferred accrued deadline s = do
  require (exists s) (text "no stream")
  require (not s.cancelled) (text "cancelled")
  require (leb now deadline) (text "authorization expired")
  require (text_eq recovered tee_signer) (text "bad TEE signature")
  require (ltb s.withdrawn (min_of accrued s.funded)) (text "nothing accrued")
  require transferred (text "transfer failed")
  done (record {
    stream = record s { withdrawn = min_of accrued s.funded };
    taken = 0;
    paid = min_of accrued s.funded - s.withdrawn;
    refunded = 0;
  })

abbrev pub owed_of : ℕ → Stream → ℕ
owed_of final s = min_of final s.funded

abbrev pub to_recipient : ℕ → Stream → ℕ
to_recipient final s =
    if ltb s.withdrawn (owed_of final s) then owed_of final s - s.withdrawn else 0

abbrev pub refund_of : ℕ → Stream → ℕ
refund_of final s = s.funded - s.withdrawn - to_recipient final s

-- `cancelStream` by `sender`. The transfers are made where there is something to move.
unfoldable pub cancel_stream : Text → Text → Text → ℕ → Bool → Bool → ℕ → ℕ → Stream → Call Moved
cancel_stream tee_signer recovered sender now paid_out refunded final deadline s = do
  require (text_eq sender s.employer) (text "not employer")
  require (not s.cancelled) (text "cancelled")
  require (leb now deadline) (text "authorization expired")
  require (text_eq recovered tee_signer) (text "bad TEE signature")
  require (leb s.withdrawn s.funded) (text "underflow")
  require (if ltb 0 (to_recipient final s) then paid_out else true) (text "transfer failed")
  require (if ltb 0 (refund_of final s) then refunded else true) (text "refund failed")
  done (record {
    stream = record s {
      cancelled = true;
      withdrawn = if ltb s.withdrawn (owed_of final s) then owed_of final s else s.withdrawn;
    };
    taken = 0;
    paid = to_recipient final s;
    refunded = refund_of final s;
  })
