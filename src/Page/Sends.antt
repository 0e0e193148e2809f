-- ===== src/Page/Sends.antt =====
-- What the landing page shows, and what the employer's page asks of the wallet.
use mathlib.Core.Path.{subst}
use flare_stealthwage.Prelude.{
  ℕ, ◌≡◌, inl, inr, refl, ap, sym, text, ◌∙◌, ◌++◌, JsError, true, Bool-cases, Option, none, some,
  ℤ, pos, List, [], ◌∷◌, Text, text_eq, text_eq_iff, lower, Result, ok, throw, Result-cases,
}
use flare_stealthwage.Prelude.Int.{ltb_ℤ, parse_bigint}
use flare_stealthwage.Protocol.Viem.{Viem}
use flare_stealthwage.Protocol.Terms.{StreamTerms, decode_terms}
use flare_stealthwage.Stream.Safety.{then_try-eq-ok}
use flare_stealthwage.Page.Dashboard.{OnChainStream, TokenMeta}
use flare_stealthwage.Page.Landing.{Loaded, loading, verified, verified_terms}
use flare_stealthwage.Page.Employer.{
  Services, Run, lift, Transaction, create_stream, approve, fund, Receipt, sealed_terms, funded,
  funded_if, submitting, submit, stream_id_in, or_zero, ◌>>=◌,
}

module _ (v : Viem) where
  -- The revealed terms hash to the commitment of a stream, and decode.
  pub record Reveals (commitment : Text) (revealed : Option Text) (t : StreamTerms) : Type 0 where
    pub terms_hex : Text
    pub present : revealed ≡ some terms_hex
    pub committed : lower (v.keccak256 terms_hex) ≡ lower commitment
    pub decodes : decode_terms v terms_hex ≡ ok t

  none-ne-some :
      {t : StreamTerms} → ◌≡◌ {A = Result (Option StreamTerms)} (ok none) (ok (some t)) → ⊥
  none-ne-some e = cc

  throw-ne-ok : {x : JsError} {t : Option StreamTerms} → Result.throw x ≡ ok t → ⊥
  throw-ne-ok e = cc

  ok_some : {t t' : StreamTerms} → ok (some t') ≡ ok (some t) → ok t' ≡ ok t
  ok_some e = cc

  ok_loaded : {l l' : Loaded} → ok l' ≡ ok l → l' ≡ l
  ok_loaded e = cc

  verified_terms-Reveals :
      (s : OnChainStream) (revealed : Option Text) (t : StreamTerms)
      → verified_terms v s revealed ≡ ok (some t)
      → (verified v s revealed ≡ true) × Reveals s.commitment revealed t
  unfolding verified_terms verified
  verified_terms-Reveals s none t h = cc
  verified_terms-Reveals s (some []) t h = cc
  verified_terms-Reveals s (some (c ∷ hex)) t h =
      elim (Bool-cases (text_eq (lower (v.keccak256 (c ∷ hex))) (lower s.commitment))) [
        | inr other ↦ absurd (none-ne-some (rw other at h))
        | inl same ↦ elim (Result-cases (decode_terms v (c ∷ hex))) [
          | inr (e, failing) ↦ absurd (throw-ne-ok (rw (same, failing) at h))
          | inl (t', decodes) ↦ (
            same,
            record {
              terms_hex = c ∷ hex;
              present = refl;
              committed = (text_eq_iff _ _).0 same;
              decodes = decodes ∙ ok_some (rw (same, decodes) at h);
            },
          )
        ]
      ]

  -- Where the load of the landing page gives terms, they are reported as verified, and they are what
  -- the revealed text, which hashes to the commitment of the stream, decodes to.
  pub loading-Reveals :
      (stream : OnChainStream) (read_token_meta : Text → Result TokenMeta) (revealed : Option Text)
      (l : Loaded) (t : StreamTerms)
      → loading v (ok stream) read_token_meta (ok revealed) ≡ ok l
      → l.terms ≡ some t
      → (l.commitment_verified ≡ true) × Reveals stream.commitment revealed t
  unfolding loading
  loading-Reveals stream read_token_meta revealed l t h shown =
      let (m, _, k) = then_try-eq-ok (read_token_meta stream.token) _ h in
      let (terms, decoded, e) = then_try-eq-ok (verified_terms v stream revealed) _ k in
      let same = ok_loaded e in
      let (flag, reveals) =
        verified_terms-Reveals stream revealed t
          (decoded ∙ ap ok (ap (λ (x : Loaded). x.terms) same ∙ shown)) in
      (sym (ap (λ (x : Loaded). x.commitment_verified) same) ∙ flag, reveals)

-- What a submission asks of the wallet: nothing, the creation of a stream alone, its creation and the
-- approval of a positive amount for the vault, or both and then the funding with that amount.
pub data Sends (s : Services) (t : StreamTerms) (commitment : Text)
    : List Transaction → Type 0 where
  nothing : Sends s t commitment []
  creates :
      (sealed : Text)
      → sealed_terms s t ≡ ok sealed
      → Sends s t commitment (create_stream t.recipient t.token commitment t.start_time sealed ∷ [])
  approves :
      (sealed : Text) (amount : ℤ)
      → sealed_terms s t ≡ ok sealed
      → ltb_ℤ (pos 0) amount ≡ true
      → Sends s t commitment (
          create_stream t.recipient t.token commitment t.start_time sealed
          ∷ approve t.token s.vault_address amount
          ∷ [])
  funds :
      (sealed : Text) (amount id : ℤ)
      → sealed_terms s t ≡ ok sealed
      → ltb_ℤ (pos 0) amount ≡ true
      → Sends s t commitment (
          create_stream t.recipient t.token commitment t.start_time sealed
          ∷ approve t.token s.vault_address amount
          ∷ fund id amount
          ∷ [])

then_lift {ℓ κ} : {A : Type ℓ} {B : Type κ} (m : Run A) (r : Result B) → (m >>= λ _. lift r).0 ≡ m.0
then_lift (sent, ok a) r = append_nil sent
  where
    append_nil : (xs : List Transaction) → xs ++ [] ≡ xs
    append_nil [] = refl
    append_nil (x ∷ xs) = ap (λ (ys : List Transaction). x ∷ ys) (append_nil xs)
then_lift (sent, throw e) r = refl

module _ (s : Services) (t : StreamTerms) (commitment : Text) where
  abbrev creation : Text → Transaction
  creation sealed = create_stream t.recipient t.token commitment t.start_time sealed

  funded-Sends :
      (sealed stream_id : Text) (amount : ℤ)
      → sealed_terms s t ≡ ok sealed
      → ltb_ℤ (pos 0) amount ≡ true
      → Sends s t commitment (creation sealed ∷ (funded s t.token stream_id amount).0)
  funded-Sends sealed stream_id amount made positive =
      elim (Result-cases (s.write (approve t.token s.vault_address amount))) [
        | inr (e, failing) ↦ rw failing (approves sealed amount made positive)
        | inl (hash, sent) ↦ elim (Result-cases (s.receipt hash)) [
          | inr (e, failing) ↦ rw (sent, failing) (approves sealed amount made positive)
          | inl (r, got) ↦ elim (Result-cases (parse_bigint stream_id)) [
            | inr (e, failing) ↦ rw (sent, got, failing) (approves sealed amount made positive)
            | inl (id, read) ↦ elim (Result-cases (s.write (fund id amount))) [
              | inr (e, failing) ↦
                  rw (sent, got, read, failing) (funds sealed amount id made positive)
              | inl (funding, paid) ↦
                  rw (sent, got, read, paid) (funds sealed amount id made positive)
            ]
          ]
        ]
      ]

  funded_if-Sends :
      (sealed stream_id : Text) (amount : ℤ) (r : Receipt)
      → sealed_terms s t ≡ ok sealed
      → Sends s t commitment (creation sealed ∷ (funded_if s t.token stream_id amount r).0)
  funded_if-Sends sealed [] amount r made = creates sealed made
  funded_if-Sends sealed (c ∷ stream_id) amount r made = elim (Bool-cases (ltb_ℤ (pos 0) amount)) [
    | inl positive ↦ rw positive (funded-Sends sealed (c ∷ stream_id) amount made positive)
    | inr zero_amount ↦ rw zero_amount (creates sealed made)
  ]

  -- Whatever the wallet, the node and the cipher answer, a submission asks the wallet, in this order and
  -- with no repetition, for at most the creation of a stream with the commitment and the terms as
  -- `encrypt` sealed them, the approval of a positive amount for the vault, and the funding with that
  -- amount; each only after the one before.
  pub submit-Sends :
      (fund_amount : Text) (decimals : ℕ)
      → Sends s t commitment (submit s t commitment fund_amount decimals).0
  unfolding submit submitting
  submit-Sends fund_amount decimals = elim (Result-cases (sealed_terms s t)) [
    | inr (e, failing) ↦ rw failing nothing
    | inl (sealed, made) ↦ elim (Result-cases (s.write (creation sealed))) [
      | inr (e, failing) ↦ rw (made, failing) (creates sealed made)
      | inl (hash, sent) ↦ elim (Result-cases (s.receipt hash)) [
        | inr (e, failing) ↦ rw (made, sent, failing) (creates sealed made)
        | inl (r, got) ↦ elim (Bool-cases (text_eq r.status (text "success"))) [
          | inr other ↦ rw (made, sent, got, other) (creates sealed made)
          | inl success ↦ elim (Result-cases (s.parse_units (or_zero fund_amount) decimals)) [
            | inr (e, failing) ↦ rw (made, sent, got, success, failing) (creates sealed made)
            | inl (amount, parsed) ↦
                rw (made, sent, got, success, parsed)
                  (subst (λ ys. Sends s t commitment (creation sealed ∷ ys))
                    (sym (
                      then_lift (funded_if s t.token (stream_id_in s.vault_address r.logs) amount r)
                        (ok (stream_id_in s.vault_address r.logs, hash))))
                    (funded_if-Sends sealed (stream_id_in s.vault_address r.logs) amount r made))
          ]
        ]
      ]
    ]
  ]
