-- ===== src/Vault/Fixed.antt =====
-- What the vault never changes of a stream.
use flare_stealthwage.Prelude.{
  ℕ, suc, ◌≤◌, ◌<◌, ◌≡◌, refl, sym, ap, ◌∙◌, Bool, true, ◌==◌, Text, arith, Bool-cases, inl, inr,
}
use flare_stealthwage.Vault.State.{Stream, Call, done, Moved, fund, withdraw, cancel_stream}
use flare_stealthwage.Vault.Contract.{
  Vault, Done, put, set_tee_signer, create_stream, reveal_terms, fund_stream, withdraw_stream,
  cancel_the_stream, on_stream, new_stream, unmoved,
}
use flare_stealthwage.Vault.Holdings.{put-here, put-other}
use flare_stealthwage.Vault.Touched.{
  Calls, signer_call, create_call, reveal_call, fund_call, withdraw_call, cancel_call,
  on_stream-eq-done,
}

-- The parties, the token, the commitment and the start of a stream stay, what was withdrawn does not
-- fall, and a cancelled stream stays cancelled.
pub record Fixes (s t : Stream) : Type 0 where
  pub employer : t.employer ≡ s.employer
  pub recipient : t.recipient ≡ s.recipient
  pub token : t.token ≡ s.token
  pub commitment : t.commitment ≡ s.commitment
  pub start_time : t.start_time ≡ s.start_time
  pub withdrawn : s.withdrawn ≤ t.withdrawn
  pub cancelled : s.cancelled ≡ true → t.cancelled ≡ true

same-Fixes : (s : Stream) → Fixes s s
same-Fixes s = record {
  employer = refl;
  recipient = refl;
  token = refl;
  commitment = refl;
  start_time = refl;
  withdrawn = omega arith;
  cancelled = λ c. c;
}

then-Fixes : (s t u : Stream) → Fixes s t → Fixes t u → Fixes s u
then-Fixes s t u a b = record {
  employer = b.employer ∙ a.employer;
  recipient = b.recipient ∙ a.recipient;
  token = b.token ∙ a.token;
  commitment = b.commitment ∙ a.commitment;
  start_time = b.start_time ∙ a.start_time;
  withdrawn = omega (arith, a.withdrawn, b.withdrawn);
  cancelled = λ c. b.cancelled (a.cancelled c);
}

fund-Fixes :
    (transferred : Bool) (amount : ℕ) (s : Stream) (m : Moved)
    → fund transferred amount s ≡ done m
    → Fixes s m.stream
unfolding fund
fund-Fixes transferred amount s m h = record {
  employer = ground arith;
  recipient = ground arith;
  token = ground arith;
  commitment = ground arith;
  start_time = ground arith;
  withdrawn = ground arith;
  cancelled = λ c. ground arith;
}

withdraw-Fixes :
    (tee_signer recovered : Text) (now : ℕ) (transferred : Bool) (accrued deadline : ℕ) (s : Stream)
    (m : Moved)
    → withdraw tee_signer recovered now transferred accrued deadline s ≡ done m
    → Fixes s m.stream
unfolding withdraw
withdraw-Fixes tee_signer recovered now transferred accrued deadline s m h = record {
  employer = ground arith;
  recipient = ground arith;
  token = ground arith;
  commitment = ground arith;
  start_time = ground arith;
  withdrawn = ground arith;
  cancelled = λ c. ground arith;
}

cancel_stream-Fixes :
    (tee_signer recovered sender : Text) (now : ℕ) (paid_out refunded : Bool) (final deadline : ℕ)
    (s : Stream) (m : Moved)
    → cancel_stream tee_signer recovered sender now paid_out refunded final deadline s ≡ done m
    → Fixes s m.stream
unfolding cancel_stream
cancel_stream-Fixes tee_signer recovered sender now paid_out refunded final deadline s m h =
    record {
      employer = ground arith;
      recipient = ground arith;
      token = ground arith;
      commitment = ground arith;
      start_time = ground arith;
      withdrawn = ground arith;
      cancelled = λ c. ground arith;
    }

-- What a call leaves of the streams that are there before it.
record Leaves (v w : Vault) : Type 0 where
  next : v.next_stream_id ≤ w.next_stream_id
  fixed : (id : ℕ) → id < v.next_stream_id → Fixes (v.streams id) (w.streams id)

on_stream-Leaves :
    (id : ℕ) (v : Vault) (call : Call Moved) (d : Done)
    → ((m : Moved) → call ≡ done m → Fixes (v.streams id) m.stream)
    → on_stream id v call ≡ done d
    → Leaves v d.vault
on_stream-Leaves id v call d fixes h =
    let (m, ran, same) = on_stream-eq-done id v call d h in
    rw same (record {
      next = omega arith;
      fixed = λ k below. elim (Bool-cases (k == id)) [
        | inl here ↦
            let eq : k ≡ id = ground arith in
            rw (put-here id m.stream v.streams k here, eq) (fixes m ran)
        | inr other ↦ rw (put-other id m.stream v.streams k other) (same-Fixes (v.streams k))
      ];
    })

signer-Leaves :
    (sender signer : Text) (v : Vault) (d : Done)
    → set_tee_signer sender signer v ≡ done d
    → (v.next_stream_id ≡ d.vault.next_stream_id) × (v.streams ≡ d.vault.streams)
unfolding set_tee_signer
signer-Leaves sender signer v d h = ground arith

reveal-Leaves :
    (id : ℕ) (hash : Text) (v : Vault) (d : Done) → reveal_terms id hash v ≡ done d → d.vault ≡ v
unfolding reveal_terms
reveal-Leaves id hash v d h = ground arith

same_streams-Leaves :
    (v w : Vault) → v.next_stream_id ≡ w.next_stream_id → v.streams ≡ w.streams → Leaves v w
same_streams-Leaves v w n s = record {
  next = omega (arith, n);
  fixed = λ id below. rw (← s) (same-Fixes (v.streams id));
}

create_stream-put :
    (sender recipient token commitment : Text) (start_time : ℕ) (v : Vault) (d : Done)
    → create_stream sender recipient token commitment start_time v ≡ done d
    → (s : Stream) × (d.vault.streams ≡ put v.next_stream_id s v.streams)
      × (d.vault.next_stream_id ≡ suc v.next_stream_id)
unfolding create_stream
create_stream-put sender recipient token commitment start_time v d h =
    let s = new_stream sender recipient token commitment start_time in
    let e : unmoved (record v {
      next_stream_id = suc v.next_stream_id;
      streams = put v.next_stream_id s v.streams;
    })
        ≡ d =
      ground arith in
    (
      s,
      ap (λ (d : Done). d.vault.streams) (sym e),
      ap (λ (d : Done). d.vault.next_stream_id) (sym e),
    )

create_stream-Leaves :
    (sender recipient token commitment : Text) (start_time : ℕ) (v : Vault) (d : Done)
    → create_stream sender recipient token commitment start_time v ≡ done d
    → Leaves v d.vault
create_stream-Leaves sender recipient token commitment start_time v d h =
    let (s, streams, next) = create_stream-put sender recipient token commitment start_time v d h in
    record {
      next = omega (arith, next);
      fixed = λ k below.
          rw (streams, put-other v.next_stream_id s v.streams k (ground arith))
            (same-Fixes (v.streams k));
    }

Calls-Leaves : (v : Vault) (d : Done) → Calls v d → Leaves v d.vault
unfolding fund_stream withdraw_stream cancel_the_stream
Calls-Leaves v d (signer_call sender signer h) =
    let (n, s) = signer-Leaves sender signer v d h in same_streams-Leaves v d.vault n s
Calls-Leaves v d (create_call sender recipient token commitment start_time h) =
    create_stream-Leaves sender recipient token commitment start_time v d h
Calls-Leaves v d (reveal_call id hash h) =
    rw (reveal-Leaves id hash v d h) (same_streams-Leaves v v refl refl)
Calls-Leaves v d (fund_call id transferred amount h) =
    on_stream-Leaves id v (fund transferred amount (v.streams id)) d
      (fund-Fixes transferred amount (v.streams id)) h
Calls-Leaves v d (withdraw_call id recovered now transferred accrued deadline h) =
    on_stream-Leaves id v
      (withdraw v.tee_signer recovered now transferred accrued deadline (v.streams id)) d
      (withdraw-Fixes v.tee_signer recovered now transferred accrued deadline (v.streams id)) h
Calls-Leaves v d (cancel_call id recovered sender now paid_out refunded final deadline some_one h) =
    let s = v.streams id in
    on_stream-Leaves id v
      (cancel_stream v.tee_signer recovered sender now paid_out refunded final deadline s) d
      (cancel_stream-Fixes v.tee_signer recovered sender now paid_out refunded final deadline s) h

-- The vaults that calls reach from a given one.
pub data Later (v : Vault) : Vault → Type 0 where
  here : Later v v
  after : {w : Vault} (d : Done) → Later v w → Calls w d → Later v d.vault

Later-Leaves : {v w : Vault} → Later v w → Leaves v w
Later-Leaves {v} here = same_streams-Leaves v v refl refl
Later-Leaves {v} (after {w} d l c) =
    let before = Later-Leaves l in
    let last = Calls-Leaves w d c in
    record {
      next = omega (arith, before.next, last.next);
      fixed = λ id below.
          then-Fixes (v.streams id) (w.streams id) (d.vault.streams id) (before.fixed id below)
            (last.fixed id (omega (arith, before.next)));
    }

-- Through any successful calls of the vault's functions, by any callers and in any order, a stream
-- with an id below the next one keeps its parties, its token, its commitment and its start, what was
-- withdrawn of it does not fall, and once cancelled it stays so.
pub Later-Fixes :
    {v w : Vault}
    → Later v w
    → (id : ℕ) → id < v.next_stream_id
    → Fixes (v.streams id) (w.streams id)
Later-Fixes l id below = (Later-Leaves l).fixed id below
