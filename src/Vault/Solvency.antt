-- ===== src/Vault/Solvency.antt =====
-- The whole vault: of every token it holds exactly what its open streams have left.
use flare_stealthwage.Prelude.{
  ℕ, suc, ◌+◌, ◌≡◌, ◌≢◌, inl, inr, refl, ap, ◌∙◌, Bool, true, false, [], ◌==◌, Text, text_eq,
  text_eq_iff, arith, Bool-cases,
}
use flare_stealthwage.Vault.State.{Stream, Call, done, Moved, fund, withdraw, cancel_stream}
use flare_stealthwage.Vault.Money.{IsValid, Step-Accounts, funding, withdrawal, cancellation}
use flare_stealthwage.Vault.Contract.{
  Vault, no_stream, deployed, Done, unmoved, put, set_tee_signer, new_stream, create_stream,
  reveal_terms, on_stream, fund_stream, withdraw_stream, cancel_the_stream,
}
use flare_stealthwage.Vault.Holdings.{left, share, held, put-here, put-other, held-put_fresh}
use flare_stealthwage.Vault.Touched.{
  IsSound, Calls, signer_call, create_call, reveal_call, fund_call, withdraw_call, cancel_call,
  on_stream-eq-done, Touches, fund-parties, withdraw-parties, cancel_stream-parties, not_empty,
  holdings, of_token, Preserves, touched-Preserves,
}

-- An operation on a stream that touches it as it should preserves the vault.
on_stream-Preserves :
    (id : ℕ) (v : Vault) (call : Call Moved) (d : Done)
    → IsSound v
    → ((m : Moved) → call ≡ done m → Touches (v.streams id) m)
    → on_stream id v call ≡ done d
    → Preserves v d
on_stream-Preserves id v call d sound touches h =
    let (m, ran, result) = on_stream-eq-done id v call d h in
    rw result (touched-Preserves id v m sound (touches m ran))

unmoved-Preserves : (v : Vault) → IsSound v → Preserves v (unmoved v)
unmoved-Preserves v sound = record { sound = sound; flow = λ token. refl }

signer-Preserves :
    (sender signer : Text) (v : Vault) (d : Done)
    → IsSound v
    → set_tee_signer sender signer v ≡ done d
    → Preserves v d
unfolding set_tee_signer
signer-Preserves sender signer v d sound h =
    let e : unmoved (record v { tee_signer = signer }) ≡ d = ground arith in
    rw (← e)
      (record { sound = record { valid = sound.valid; fresh = sound.fresh }; flow = λ token. refl })

revealed-Preserves :
    (id : ℕ) (hash : Text) (v : Vault) (d : Done)
    → IsSound v
    → reveal_terms id hash v ≡ done d
    → Preserves v d
unfolding reveal_terms
revealed-Preserves id hash v d sound h =
    let e : unmoved v ≡ d = ground arith in rw (← e) (unmoved-Preserves v sound)

-- The vault behind a creation.
abbrev grown : Stream → Vault → Vault
grown s v = record v {
  next_stream_id = suc v.next_stream_id;
  streams = put v.next_stream_id s v.streams;
}

grown-IsSound : (s : Stream) (v : Vault) → IsValid s → IsSound v → IsSound (grown s v)
grown-IsSound s v valid sound = record {
  valid = λ k. elim (Bool-cases (k == v.next_stream_id)) [
    | inl here ↦ rw (put-here v.next_stream_id s v.streams k here) valid
    | inr other ↦ rw (put-other v.next_stream_id s v.streams k other) (sound.valid k)
  ];
  fresh = λ k above.
      let other : (k == v.next_stream_id) ≡ false = ground arith in
      rw (put-other v.next_stream_id s v.streams k other) (sound.fresh k (omega arith));
}

share_none : (token : Text) (s : Stream) → left s ≡ 0 → share token s ≡ 0
unfolding share
share_none token s h = elim (Bool-cases (text_eq s.token token)) [
  | inl here ↦ rw here h
  | inr other ↦ rw other refl
]

grown-holdings :
    (token : Text) (s : Stream) (v : Vault)
    → left s ≡ 0
    → holdings token (grown s v) ≡ holdings token v
unfolding held
grown-holdings token s v h =
    let n = v.next_stream_id in
    let here : (n == n) ≡ true = ground arith in
    let now : share token (put n s v.streams n) ≡ share token s =
      ap (share token) (put-here n s v.streams n here) in
    omega (arith, now, share_none token s h, held-put_fresh token n n s v.streams (omega arith))

created-Preserves :
    (sender recipient token commitment : Text) (start_time : ℕ) (v : Vault) (d : Done)
    → IsSound v
    → create_stream sender recipient token commitment start_time v ≡ done d
    → Preserves v d
unfolding create_stream
created-Preserves sender recipient token commitment start_time v d sound h =
    let s = new_stream sender recipient token commitment start_time in
    let e : unmoved (grown s v) ≡ d = ground arith in
    rw (← e) (record {
      sound = grown-IsSound s v (record { within = omega arith; fits = omega arith }) sound;
      flow = λ t. ap (λ k. k + of_token t [] 0) (grown-holdings t s v refl);
    })

fund_stream-Preserves :
    (id : ℕ) (transferred : Bool) (amount : ℕ) (v : Vault) (d : Done)
    → IsSound v
    → fund_stream id transferred amount v ≡ done d
    → Preserves v d
unfolding fund_stream
fund_stream-Preserves id transferred amount v d sound h =
    let s = v.streams id in
    on_stream-Preserves id v (fund transferred amount s) d sound
      (λ m ran.
        let (token, employer, there) = fund-parties transferred amount s m ran in
        record {
          accounts = Step-Accounts 0 s m (sound.valid id) (funding transferred amount ran);
          token = token;
          employer = employer;
          there = not_empty s.employer there;
        })
      h

withdraw_stream-Preserves :
    (id : ℕ) (recovered : Text) (now : ℕ) (transferred : Bool) (accrued deadline : ℕ) (v : Vault)
    (d : Done)
    → IsSound v
    → withdraw_stream id recovered now transferred accrued deadline v ≡ done d
    → Preserves v d
unfolding withdraw_stream
withdraw_stream-Preserves id recovered now transferred accrued deadline v d sound h =
    let s = v.streams id in
    on_stream-Preserves id v (withdraw v.tee_signer recovered now transferred accrued deadline s) d
      sound
      (λ m ran.
        let (token, employer, there) =
          withdraw-parties v.tee_signer recovered now transferred accrued deadline s m ran in
        record {
          accounts = Step-Accounts accrued s m (sound.valid id) (
              withdrawal v.tee_signer recovered now transferred accrued deadline (omega arith) ran);
          token = token;
          employer = employer;
          there = not_empty s.employer there;
        })
      h

cancel_the_stream-Preserves :
    (id : ℕ) (recovered sender : Text) (now : ℕ) (paid_out refunded : Bool) (final deadline : ℕ)
    (v : Vault) (d : Done)
    → IsSound v
    → sender ≢ []
    → cancel_the_stream id recovered sender now paid_out refunded final deadline v ≡ done d
    → Preserves v d
unfolding cancel_the_stream
cancel_the_stream-Preserves id recovered sender now paid_out refunded final deadline v d sound
      some_one h =
    let s = v.streams id in
    on_stream-Preserves id v
      (cancel_stream v.tee_signer recovered sender now paid_out refunded final deadline s) d sound
      (λ m ran.
        let (token, employer, by) =
          cancel_stream-parties v.tee_signer recovered sender now paid_out refunded final deadline s
            m ran in
        record {
          accounts = Step-Accounts final s m (sound.valid id) (
              cancellation v.tee_signer recovered sender now paid_out refunded final deadline
                (omega arith) ran);
          token = token;
          employer = employer;
          there = λ none_there. some_one ((text_eq_iff sender s.employer).0 by ∙ none_there);
        })
      h

Calls-Preserves : (v : Vault) (d : Done) → IsSound v → Calls v d → Preserves v d
Calls-Preserves v d sound (signer_call sender signer h) = signer-Preserves sender signer v d sound h
Calls-Preserves v d sound (create_call sender recipient token commitment start_time h) =
    created-Preserves sender recipient token commitment start_time v d sound h
Calls-Preserves v d sound (reveal_call id hash h) = revealed-Preserves id hash v d sound h
Calls-Preserves v d sound (fund_call id transferred amount h) =
    fund_stream-Preserves id transferred amount v d sound h
Calls-Preserves v d sound (withdraw_call id recovered now transferred accrued deadline h) =
    withdraw_stream-Preserves id recovered now transferred accrued deadline v d sound h
Calls-Preserves v d sound
      (cancel_call id recovered sender now paid_out refunded final deadline some_one h) =
    cancel_the_stream-Preserves id recovered sender now paid_out refunded final deadline v d sound
      some_one h

-- What of a token came in, or went out, with each call.
abbrev Amounts : Type 0
Amounts = Text → ℕ

-- The vaults that calls reach from a deployed one, with what came in and went out so far.
pub data Reach (deployer signer : Text) : Vault → Amounts → Amounts → Type 0 where
  opening : Reach deployer signer (deployed deployer signer) (λ token. 0) (λ token. 0)
  call :
      {v : Vault} {taken given : Amounts} (d : Done)
      → Reach deployer signer v taken given
      → Calls v d
      → Reach deployer signer d.vault
          (λ token. taken token + of_token token d.token d.taken)
          (λ token. given token + of_token token d.token d.given)

deployed-IsSound : (deployer signer : Text) → IsSound (deployed deployer signer)
unfolding deployed
deployed-IsSound deployer signer = record {
  valid = λ id. record { within = omega arith; fits = omega arith };
  fresh = λ id above. refl;
}

deployed-holdings : (deployer signer token : Text) → holdings token (deployed deployer signer) ≡ 0
unfolding deployed held
deployed-holdings deployer signer token = omega (arith, share_none token no_stream refl)

Reach-IsSound :
    {deployer signer : Text} {v : Vault} {taken given : Amounts}
    → Reach deployer signer v taken given
    → IsSound v
Reach-IsSound {deployer} {signer} opening = deployed-IsSound deployer signer
Reach-IsSound (call {v} d r c) = (Calls-Preserves v d (Reach-IsSound r) c).sound

-- After any successful calls of the vault's functions on a newly deployed vault, by any callers but
-- the zero address and in any order, over any number of streams and tokens: of every token, what went
-- out and what the streams that are not cancelled have left together make up exactly what came in.
pub Reach-solvent :
    {deployer signer : Text} {v : Vault} {taken given : Amounts}
    → Reach deployer signer v taken given
    → (token : Text) → holdings token v + given token ≡ taken token
Reach-solvent {deployer} {signer} opening token =
    omega (arith, deployed-holdings deployer signer token)
Reach-solvent (call {v} {taken} {given} d r c) token =
    omega (arith, Reach-solvent r token, (Calls-Preserves v d (Reach-IsSound r) c).flow token)
