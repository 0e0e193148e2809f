-- ===== src/Vault/Replay.antt =====
-- An authorization that was used is worth nothing, and a cancelled stream pays no more.
use flare_stealthwage.Prelude.{ℕ, ◌≤◌, ◌≡◌, Bool, true, Text, arith}
use flare_stealthwage.Vault.State.{Stream, done, Moved, fund, withdraw, cancel_stream}

-- Right after a withdrawal, no withdrawal with the same or a smaller accrual succeeds, at any time and
-- under any signature.
pub withdraw_replay :
    (tee_signer recovered : Text) (now : ℕ) (transferred : Bool) (accrued deadline : ℕ) (s : Stream)
    (m : Moved) (tee_signer' recovered' : Text) (now' : ℕ) (transferred' : Bool)
    (accrued' deadline' : ℕ) (m' : Moved)
    → withdraw tee_signer recovered now transferred accrued deadline s ≡ done m
    → accrued' ≤ accrued
    → ¬ (withdraw tee_signer' recovered' now' transferred' accrued' deadline' m.stream ≡ done m')
unfolding withdraw
withdraw_replay tee_signer recovered now transferred accrued deadline s m tee_signer' recovered'
      now' transferred' accrued' deadline' m' h below =
    λ again. ground (arith, again)

-- Once a stream is cancelled, every call of the three operations on it reverts.
pub cancel_stream_final :
    (s : Stream) (tee_signer recovered sender : Text) (now amount deadline : ℕ)
    (transferred paid_out refunded : Bool) (m : Moved)
    → s.cancelled ≡ true
    → ¬ (fund transferred amount s ≡ done m)
      × ¬ (withdraw tee_signer recovered now transferred amount deadline s ≡ done m)
      × ¬ (
          cancel_stream tee_signer recovered sender now paid_out refunded amount deadline s
          ≡ done m)
unfolding fund withdraw cancel_stream
cancel_stream_final s tee_signer recovered sender now amount deadline transferred paid_out refunded
      m c =
    ground arith
