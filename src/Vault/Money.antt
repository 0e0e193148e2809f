-- ===== src/Vault/Money.antt =====
-- What the vault pays: single calls, and any history of calls on one stream.
use flare_stealthwage.Prelude.{ℕ, ◌+◌, ◌^◌, ◌≤◌, ◌<◌, ◌≡◌, ◌⊎◌, Bool, true, false, Text, arith}
use flare_stealthwage.Vault.State.{Stream, done, Moved, fund, withdraw, cancel_stream}

-- No more was paid out than was put in, and the amounts fit a uint128.
pub record IsValid (s : Stream) : Type 0 where
  pub within : s.withdrawn ≤ s.funded
  pub fits : s.funded < 2 ^ 128

-- What a call did to one stream: what was put in and paid out are the changes of `funded` and
-- `withdrawn`, and what is refunded is all that is left, on cancellation.
pub record Accounts (s : Stream) (m : Moved) : Type 0 where
  pub valid : IsValid m.stream
  pub open_before : s.cancelled ≡ false
  pub funded : m.stream.funded ≡ s.funded + m.taken
  pub withdrawn : m.stream.withdrawn ≡ s.withdrawn + m.paid
  pub settled :
      ((m.stream.cancelled ≡ false) × (m.refunded ≡ 0))
      ⊎ ((m.stream.cancelled ≡ true) × (m.stream.withdrawn + m.refunded ≡ m.stream.funded))

fund-Accounts :
    (transferred : Bool) (amount : ℕ) (s : Stream) (m : Moved)
    → IsValid s
    → fund transferred amount s ≡ done m
    → Accounts s m
unfolding fund
fund-Accounts transferred amount s m v h = ground arith

withdraw-Accounts :
    (tee_signer recovered : Text) (now : ℕ) (transferred : Bool) (accrued deadline : ℕ) (s : Stream)
    (m : Moved)
    → IsValid s
    → withdraw tee_signer recovered now transferred accrued deadline s ≡ done m
    → Accounts s m
unfolding withdraw
withdraw-Accounts tee_signer recovered now transferred accrued deadline s m v h = ground arith

cancel_stream-Accounts :
    (tee_signer recovered sender : Text) (now : ℕ) (paid_out refunded : Bool) (final deadline : ℕ)
    (s : Stream) (m : Moved)
    → IsValid s
    → cancel_stream tee_signer recovered sender now paid_out refunded final deadline s ≡ done m
    → Accounts s m
unfolding cancel_stream
cancel_stream-Accounts tee_signer recovered sender now paid_out refunded final deadline s m v h =
    ground arith

-- A call of one of the operations that move money, with any caller, time, signature result and
-- transfer results, and with an accrual of at most `bound` where it takes one.
pub data Step (bound : ℕ) (s : Stream) (m : Moved) : Type 0 where
  funding : (transferred : Bool) (amount : ℕ) → fund transferred amount s ≡ done m → Step bound s m
  withdrawal :
      (tee_signer recovered : Text) (now : ℕ) (transferred : Bool) (accrued deadline : ℕ)
      → accrued ≤ bound
      → withdraw tee_signer recovered now transferred accrued deadline s ≡ done m
      → Step bound s m
  cancellation :
      (tee_signer recovered sender : Text) (now : ℕ) (paid_out refunded : Bool) (final deadline : ℕ)
      → final ≤ bound
      → cancel_stream tee_signer recovered sender now paid_out refunded final deadline s ≡ done m
      → Step bound s m

-- No call succeeds with a result that breaks the accounts.
pub Step-Accounts : (bound : ℕ) (s : Stream) (m : Moved) → IsValid s → Step bound s m → Accounts s m
Step-Accounts bound s m v (funding transferred amount h) = fund-Accounts transferred amount s m v h
Step-Accounts bound s m v (withdrawal signer recovered now transferred accrued deadline _ h) =
    withdraw-Accounts signer recovered now transferred accrued deadline s m v h
Step-Accounts bound s m v
      (cancellation signer recovered sender now paid_out refunded final deadline _ h) =
    cancel_stream-Accounts signer recovered sender now paid_out refunded final deadline s m v h

withdraw-bound :
    (tee_signer recovered : Text) (now : ℕ) (transferred : Bool) (accrued deadline : ℕ) (s : Stream)
    (m : Moved)
    → withdraw tee_signer recovered now transferred accrued deadline s ≡ done m
    → m.stream.withdrawn ≤ accrued
unfolding withdraw
withdraw-bound tee_signer recovered now transferred accrued deadline s m h = ground arith

cancel_stream-bound :
    (tee_signer recovered sender : Text) (now : ℕ) (paid_out refunded : Bool)
    (final deadline bound : ℕ) (s : Stream) (m : Moved)
    → cancel_stream tee_signer recovered sender now paid_out refunded final deadline s ≡ done m
    → final ≤ bound
    → s.withdrawn ≤ bound
    → m.stream.withdrawn ≤ bound
unfolding cancel_stream
cancel_stream-bound tee_signer recovered sender now paid_out refunded final deadline bound s m h f
      b =
    ground arith

fund-withdrawn :
    (transferred : Bool) (amount : ℕ) (s : Stream) (m : Moved)
    → fund transferred amount s ≡ done m
    → m.stream.withdrawn ≡ s.withdrawn
unfolding fund
fund-withdrawn transferred amount s m h = ground arith

pub Step-bound :
    (bound : ℕ) (s : Stream) (m : Moved)
    → Step bound s m
    → s.withdrawn ≤ bound
    → m.stream.withdrawn ≤ bound
Step-bound bound s m (funding transferred amount h) b =
    rw (fund-withdrawn transferred amount s m h) b
Step-bound bound s m (withdrawal signer recovered now transferred accrued deadline f h) b =
    omega (arith, withdraw-bound signer recovered now transferred accrued deadline s m h)
Step-bound bound s m (cancellation signer recovered sender now paid_out refunded final deadline f h)
      b =
    cancel_stream-bound signer recovered sender now paid_out refunded final deadline bound s m h f b
