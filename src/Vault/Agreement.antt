-- ===== src/Vault/Agreement.antt =====
-- The enclave and the vault: the digests of StreamVault.sol and the one that streamHandlers.ts signs.
use flare_stealthwage.Prelude.{ℕ, ℤ, pos, ◌≡◌, sym, ◌∙◌, Text, lower, lower_idem, ok, ap}
use flare_stealthwage.Prelude.Int.{parse_bigint, ◌+ℤ◌}
use flare_stealthwage.Protocol.Viem.{Viem, Laws}
use flare_stealthwage.Protocol.Terms.{accrued_on}
use flare_stealthwage.Protocol.Digests.{
  AuthParams, auth_abi, auth_values, auth_ttl_seconds, build_auth_digest, withdraw_tag, settle_tag,
}
use flare_stealthwage.Protocol.Binding.{hashed_injective}
use flare_stealthwage.Json.Value.{Json}
use flare_stealthwage.Stream.Authorize.{Enclave, Env, auth_params}
use flare_stealthwage.Stream.Safety.{IsAuthorized}
use flare_stealthwage.Vault.Digest.{
  Operation, withdrawing, cancelling, withdraw_digest, cancel_digest, digest_of,
}

-- The tag under which the enclave signs for an operation of the vault.
abbrev pub tag_of : Viem → Operation → Text
tag_of v withdrawing = withdraw_tag v
tag_of v cancelling = settle_tag v

-- What an answer of the enclave says of the vault that accepts its signature.
pub record Agrees (e : Enclave) (env : Env) (now : ℕ) (tag : Text) (msg body : Json)
    (a : IsAuthorized e env now tag msg body) (operation : Operation) (chain_id : ℤ) (self : Text)
    (stream_id : ℤ) (commitment : Text) (accrued deadline : ℤ) : Type 0 where
  pub same_chain : parse_bigint a.req.chain_id ≡ ok chain_id
  pub same_vault : lower a.req.vault ≡ lower self
  pub same_tag : lower tag ≡ lower (tag_of e.viem operation)
  pub same_stream : parse_bigint a.req.stream_id ≡ ok stream_id
  pub true_terms : e.viem.keccak256 a.opened.terms_hex ≡ lower commitment
  pub true_accrual : accrued ≡ accrued_on a.opened.terms (pos now)
  pub true_deadline : deadline ≡ pos now +ℤ auth_ttl_seconds

-- The parameters of the enclave beside the values that a vault hashes.
record Matches (v : Viem) (p : AuthParams) (operation : Operation) (chain_id : ℤ) (self : Text)
    (stream_id : ℤ) (commitment : Text) (accrued deadline : ℤ) : Type 0 where
  tag : lower p.tag ≡ lower (tag_of v operation)
  chain : p.chain_id ≡ chain_id
  vault : lower p.vault ≡ lower self
  stream : p.stream_id ≡ stream_id
  commits : lower p.commitment ≡ lower commitment
  accrual : p.cumulative_accrued ≡ accrued
  expiry : p.deadline ≡ deadline

module _ (v : Viem) (laws : Laws v) (p : AuthParams) (chain_id : ℤ) (self : Text) (stream_id : ℤ)
    (commitment : Text) (accrued deadline : ℤ) (digest : Text)
    (signed : build_auth_digest v p ≡ ok digest) where
  digest_of-Matches :
      (operation : Operation)
      → digest_of v operation chain_id self stream_id commitment accrued deadline ≡ ok digest
      → Matches v p operation chain_id self stream_id commitment accrued deadline
  unfolding withdraw_digest cancel_digest build_auth_digest
  digest_of-Matches withdrawing h =
      let same = hashed_injective v laws auth_abi (auth_values v p) _ digest signed h in
      record {
        tag = cc;
        chain = cc;
        vault = cc;
        stream = cc;
        commits = cc (lower_idem p.commitment);
        accrual = cc;
        expiry = cc;
      }
  digest_of-Matches cancelling h =
      let same = hashed_injective v laws auth_abi (auth_values v p) _ digest signed h in
      record {
        tag = cc;
        chain = cc;
        vault = cc;
        stream = cc;
        commits = cc (lower_idem p.commitment);
        accrual = cc;
        expiry = cc;
      }

-- Where ABI encoding is injective and keccak256 has no collisions: if the digest that withdraw or
-- cancelStream computes, over the vault's own chain, address and stored
-- commitment and the presented amount and deadline, is the digest that the enclave signed for an
-- answer, then the operation, the chain, the vault and the stream are those of the request, the terms
-- that the enclave read hash to the stored commitment, the amount is their accrual at the time of
-- signing, and the deadline is ten minutes after it.
pub vault_digest-Agrees :
    (e : Enclave) (laws : Laws e.viem) (env : Env) (now : ℕ) (tag : Text) (msg body : Json)
    (a : IsAuthorized e env now tag msg body) (operation : Operation) (chain_id : ℤ) (self : Text)
    (stream_id : ℤ) (commitment : Text) (accrued deadline : ℤ)
    → digest_of e.viem operation chain_id self stream_id commitment accrued deadline
      ≡ ok a.signs.digest
    → Agrees e env now tag msg body a operation chain_id self stream_id commitment accrued deadline
vault_digest-Agrees e laws env now tag msg body a operation chain_id self stream_id commitment
      accrued deadline h =
    let same =
      digest_of-Matches e.viem laws
        (auth_params e a.req tag a.opened.terms now a.signs.chain_id a.signs.stream_id) chain_id
        self stream_id commitment accrued deadline a.signs.digest a.signs.built operation h in
    record {
      same_chain = a.signs.chain ∙ ap ok same.chain;
      same_vault = same.vault;
      same_tag = same.tag;
      same_stream = a.signs.stream ∙ ap ok same.stream;
      true_terms = a.opens.committed ∙ same.commits;
      true_accrual = sym same.accrual;
      true_deadline = sym same.expiry;
    }

-- For an answer under the tag of withdraw or cancelStream, that operation of the vault computes the
-- digest that the enclave signed, where it is given the answer's amount and deadline, on the chain and
-- at the address of the request, for its stream and its commitment in lower case.
pub digest_of-signed :
    (e : Enclave) (env : Env) (now : ℕ) (operation : Operation) (msg body : Json)
    (a : IsAuthorized e env now (tag_of e.viem operation) msg body)
    → digest_of e.viem operation a.signs.chain_id a.req.vault a.signs.stream_id
        (lower a.req.commitment)
        (accrued_on a.opened.terms (pos now))
        (pos now +ℤ auth_ttl_seconds)
      ≡ ok a.signs.digest
unfolding withdraw_digest cancel_digest build_auth_digest
digest_of-signed e env now withdrawing msg body a = a.signs.built
digest_of-signed e env now cancelling msg body a = a.signs.built
