-- ===== src/Vault/Holdings.antt =====
-- What the streams of a vault have left of a token, and how it changes with one stream.
use flare_stealthwage.Prelude.{
  ℕ, zero, suc, ◌+◌, ◌-◌, ◌≤◌, ◌<◌, ◌≡◌, inl, inr, refl, ap, true, false, ◌==◌, if◌then◌else◌, Text,
  text_eq, arith, Bool-cases,
}
use flare_stealthwage.Vault.State.{Stream, Moved}
use flare_stealthwage.Vault.Money.{IsValid, Accounts}
use flare_stealthwage.Vault.Contract.{put}

-- What a stream has left.
abbrev pub left : Stream → ℕ
left s = if s.cancelled then 0 else s.funded - s.withdrawn

-- What a stream has left of a token.
unfoldable pub share : Text → Stream → ℕ
share token s = if text_eq s.token token then left s else 0

-- What the streams with ids below `n` have left of a token.
unfoldable pub held : Text → ℕ → (ℕ → Stream) → ℕ
held token zero streams = 0
held token (suc n) streams = held token n streams + share token (streams n)

pub put-here :
    (id : ℕ) (s : Stream) (streams : ℕ → Stream) (k : ℕ) → (k == id) ≡ true → put id s streams k ≡ s
unfolding put
put-here id s streams k h = rw h refl

pub put-other :
    (id : ℕ) (s : Stream) (streams : ℕ → Stream) (k : ℕ)
    → (k == id) ≡ false
    → put id s streams k ≡ streams k
unfolding put
put-other id s streams k h = rw h refl

pub held-put_fresh :
    (token : Text) (n id : ℕ) (s : Stream) (streams : ℕ → Stream)
    → n ≤ id
    → held token n (put id s streams) ≡ held token n streams
unfolding held
held-put_fresh token zero id s streams h = refl
held-put_fresh token (suc n) id s streams h =
    let other : (n == id) ≡ false = ground arith in
    let now : share token (put id s streams n) ≡ share token (streams n) =
      ap (share token) (put-other id s streams n other) in
    omega (arith, now, held-put_fresh token n id s streams (omega arith))

pub held-put :
    (token : Text) (n id : ℕ) (s : Stream) (streams : ℕ → Stream)
    → id < n
    → held token n (put id s streams) + share token (streams id)
      ≡ held token n streams + share token s
unfolding held
held-put token zero id s streams h = absurd (omega arith)
held-put token (suc n) id s streams h = elim (Bool-cases (n == id)) [
  | inl here ↦
      let same : n ≡ id = ground arith in
      let now : share token (put id s streams n) ≡ share token s =
        ap (share token) (put-here id s streams n here) in
      let before : share token (streams n) ≡ share token (streams id) =
        ap (λ k. share token (streams k)) same in
      omega (arith, now, before, held-put_fresh token n id s streams (omega arith))
  | inr other ↦
      let now : share token (put id s streams n) ≡ share token (streams n) =
        ap (share token) (put-other id s streams n other) in
      let below : id < n = ground arith in omega (arith, now, held-put token n id s streams below)
]

-- A stream has left what it had, with what came in and without what went out.
pub Accounts-left :
    (s : Stream) (m : Moved)
    → IsValid s
    → Accounts s m
    → left m.stream + (m.paid + m.refunded) ≡ left s + m.taken
Accounts-left s m v a = ground (arith, a.open_before, a.funded, a.withdrawn, a.settled, v.within)
