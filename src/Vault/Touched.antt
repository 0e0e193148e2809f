-- ===== src/Vault/Touched.antt =====
-- A vault with a stream that one operation changed.
use flare_stealthwage.Prelude.{
  ℕ, ◌+◌, ◌≤◌, ◌<◌, ◌≡◌, ◌≢◌, inl, inr, refl, sym, ap, ◌∙◌, Bool, true, false, [], ◌∷◌, ◌==◌,
  if◌then◌else◌, Text, text_eq, ltb, arith, Bool-cases,
}
use flare_stealthwage.Vault.State.{Stream, Call, done, revert, Moved, fund, withdraw, cancel_stream}
use flare_stealthwage.Vault.Money.{IsValid, Accounts}
use flare_stealthwage.Vault.Contract.{
  Vault, Done, put, set_tee_signer, create_stream, reveal_terms, on_stream, fund_stream,
  withdraw_stream, cancel_the_stream,
}
use flare_stealthwage.Vault.Holdings.{share, held, put-here, put-other, held-put, Accounts-left}

-- The streams and the ids of a vault: every stream is valid, and none is there from the next id on.
pub record IsSound (v : Vault) : Type 0 where
  pub valid : (id : ℕ) → IsValid (v.streams id)
  pub fresh : (id : ℕ) → v.next_stream_id ≤ id → (v.streams id).employer ≡ []

-- A successful call of one of the contract's functions, by any caller and in any circumstances.
pub data Calls (v : Vault) (d : Done) : Type 0 where
  signer_call : (sender signer : Text) → set_tee_signer sender signer v ≡ done d → Calls v d
  create_call :
      (sender recipient token commitment : Text) (start_time : ℕ)
      → create_stream sender recipient token commitment start_time v ≡ done d
      → Calls v d
  reveal_call : (id : ℕ) (hash : Text) → reveal_terms id hash v ≡ done d → Calls v d
  fund_call :
      (id : ℕ) (transferred : Bool) (amount : ℕ)
      → fund_stream id transferred amount v ≡ done d
      → Calls v d
  withdraw_call :
      (id : ℕ) (recovered : Text) (now : ℕ) (transferred : Bool) (accrued deadline : ℕ)
      → withdraw_stream id recovered now transferred accrued deadline v ≡ done d
      → Calls v d
  cancel_call :
      (id : ℕ) (recovered sender : Text) (now : ℕ) (paid_out refunded : Bool) (final deadline : ℕ)
      → sender ≢ []
      → cancel_the_stream id recovered sender now paid_out refunded final deadline v ≡ done d
      → Calls v d

pub on_stream-eq-done :
    (id : ℕ) (v : Vault) (call : Call Moved) (d : Done)
    → on_stream id v call ≡ done d
    → (m : Moved) × (call ≡ done m)
      × (d ≡ record {
        vault = record v { streams = put id m.stream v.streams };
        token = (v.streams id).token;
        taken = m.taken;
        given = m.paid + m.refunded;
      })
on_stream-eq-done id v (done m) d h = (m, refl, cc)
on_stream-eq-done id v (revert reason) d h = cc

-- What a call on a stream does beside the money: the token and the employer stay, and the stream is
-- there.
pub record Touches (s : Stream) (m : Moved) : Type 0 where
  pub accounts : Accounts s m
  pub token : m.stream.token ≡ s.token
  pub employer : m.stream.employer ≡ s.employer
  pub there : s.employer ≢ []

pub fund-parties :
    (transferred : Bool) (amount : ℕ) (s : Stream) (m : Moved)
    → fund transferred amount s ≡ done m
    → (m.stream.token ≡ s.token)
      × (m.stream.employer ≡ s.employer)
      × (text_eq s.employer [] ≡ false)
unfolding fund
fund-parties transferred amount s m h = ground arith

pub withdraw-parties :
    (tee_signer recovered : Text) (now : ℕ) (transferred : Bool) (accrued deadline : ℕ) (s : Stream)
    (m : Moved)
    → withdraw tee_signer recovered now transferred accrued deadline s ≡ done m
    → (m.stream.token ≡ s.token)
      × (m.stream.employer ≡ s.employer)
      × (text_eq s.employer [] ≡ false)
unfolding withdraw
withdraw-parties tee_signer recovered now transferred accrued deadline s m h = ground arith

pub cancel_stream-parties :
    (tee_signer recovered sender : Text) (now : ℕ) (paid_out refunded : Bool) (final deadline : ℕ)
    (s : Stream) (m : Moved)
    → cancel_stream tee_signer recovered sender now paid_out refunded final deadline s ≡ done m
    → (m.stream.token ≡ s.token)
      × (m.stream.employer ≡ s.employer)
      × (text_eq sender s.employer ≡ true)
unfolding cancel_stream
cancel_stream-parties tee_signer recovered sender now paid_out refunded final deadline s m h =
    ground arith

pub not_empty : (s : Text) → text_eq s [] ≡ false → s ≢ []
unfolding text_eq
not_empty [] h e = cc
not_empty (c ∷ s) h e = cc

-- What a vault holds of a token for its streams.
abbrev pub holdings : Text → Vault → ℕ
holdings token v = held token v.next_stream_id v.streams

abbrev pub of_token : Text → Text → ℕ → ℕ
of_token token moved n = if text_eq moved token then n else 0

-- A call leaves the vault sound, and it holds more by what came in and less by what went out.
pub record Preserves (v : Vault) (d : Done) : Type 0 where
  pub sound : IsSound d.vault
  pub flow :
      (token : Text)
      → holdings token d.vault + of_token token d.token d.given
        ≡ holdings token v + of_token token d.token d.taken

pub share-flow :
    (token : Text) (s : Stream) (m : Moved)
    → IsValid s
    → Touches s m
    → share token m.stream + of_token token s.token (m.paid + m.refunded)
      ≡ share token s + of_token token s.token m.taken
unfolding share
share-flow token s m v t =
    let same = Accounts-left s m v t.accounts in
    rw t.token (elim (Bool-cases (text_eq s.token token)) [
      | inl here ↦ rw here same
      | inr other ↦ rw other refl
    ])

put-IsSound :
    (id : ℕ) (v : Vault) (m : Moved)
    → IsSound v
    → Touches (v.streams id) m
    → IsSound (record v { streams = put id m.stream v.streams })
put-IsSound id v m sound t = record {
  valid = λ k. elim (Bool-cases (k == id)) [
    | inl here ↦ rw (put-here id m.stream v.streams k here) t.accounts.valid
    | inr other ↦ rw (put-other id m.stream v.streams k other) (sound.valid k)
  ];
  fresh = λ k above. elim (Bool-cases (k == id)) [
    | inl here ↦
        let same : k ≡ id = ground arith in
        rw (put-here id m.stream v.streams k here)
          (t.employer ∙ ap (λ i. (v.streams i).employer) (sym same) ∙ sound.fresh k above)
    | inr other ↦ rw (put-other id m.stream v.streams k other) (sound.fresh k above)
  ];
}

below_next : (id : ℕ) (v : Vault) → IsSound v → (v.streams id).employer ≢ [] → id < v.next_stream_id
below_next id v sound there = elim (Bool-cases (ltb id v.next_stream_id)) [
  | inl below ↦ ground arith
  | inr above ↦ absurd (there (sound.fresh id (ground arith)))
]

pub touched-Preserves :
    (id : ℕ) (v : Vault) (m : Moved)
    → IsSound v
    → Touches (v.streams id) m
    → Preserves v (record {
      vault = record v { streams = put id m.stream v.streams };
      token = (v.streams id).token;
      taken = m.taken;
      given = m.paid + m.refunded;
    })
touched-Preserves id v m sound t = record {
  sound = put-IsSound id v m sound t;
  flow = λ token. omega (
    arith,
    held-put token v.next_stream_id id m.stream v.streams (below_next id v sound t.there),
    share-flow token (v.streams id) m (sound.valid id) t,
  );
}
