-- ===== src/Vault/Tests.antt =====
-- The vault's operations at concrete inputs.
use flare_stealthwage.Prelude.{ℕ, ◌+◌, [], ◌≡◌, refl, Bool, true, false, text, text_eq, arith}
use flare_stealthwage.Vault.State.{Stream, done, Moved, fund, withdraw, cancel_stream}
use flare_stealthwage.Vault.Money.{Accounts, Step, withdrawal, funding, Step-Accounts}
use flare_stealthwage.Vault.History.{start, next, nothing, plus, Balanced, Reach-Balanced}
use flare_stealthwage.Vault.Contract.{
  Vault, Done, unmoved, put, deployed, create_stream, fund_stream,
}
use flare_stealthwage.Vault.Touched.{create_call, fund_call, holdings, of_token}
use flare_stealthwage.Vault.Fixed.{Fixes, Later-Fixes, here, after}
use flare_stealthwage.Vault.Solvency.{Reach, opening, call, Reach-solvent}
use flare_stealthwage.Vault.Replay.{withdraw_replay, cancel_stream_final}

-- A stream with so much in it, and so much paid out.
abbrev stream : ℕ → ℕ → Bool → Stream
stream funded withdrawn cancelled = record {
  employer = text "0xaa";
  recipient = text "0xbb";
  token = text "0xcc";
  commitment = text "0x0102";
  funded = funded;
  withdrawn = withdrawn;
  start_time = 1000;
  cancelled = cancelled;
}

abbrev moved : Stream → ℕ → ℕ → Moved
moved s taken paid = record { stream = s; taken = taken; paid = paid; refunded = 0 }

funded_once : fund true 1000 (stream 0 0 false) ≡ done (moved (stream 1000 0 false) 1000 0)
unfolding fund text text_eq
funded_once = refl

withdrawn_once :
    withdraw (text "0x11") (text "0x11") 1040 true 400 1640 (stream 1000 0 false)
    ≡ done (moved (stream 1000 400 false) 0 400)
unfolding withdraw text text_eq
withdrawn_once = refl

abbrev the_withdrawal : Step 400 (stream 1000 0 false) (moved (stream 1000 400 false) 0 400)
the_withdrawal =
    withdrawal (text "0x11") (text "0x11") 1040 true 400 1640 (omega arith) withdrawn_once

Step-Accounts_test : Accounts (stream 1000 0 false) (moved (stream 1000 400 false) 0 400)
Step-Accounts_test =
    Step-Accounts 400 (stream 1000 0 false) (moved (stream 1000 400 false) 0 400)
      (record { within = omega arith; fits = omega arith }) the_withdrawal

Reach-Balanced_example :
    Balanced 400 (stream 1000 400 false) (
      plus
        (plus nothing (moved (stream 1000 0 false) 1000 0))
        (moved (stream 1000 400 false) 0 400))
Reach-Balanced_example =
    Reach-Balanced {bound = 400} {created = stream 0 0 false} {s = stream 1000 400 false}
      (record { funded = refl; withdrawn = refl; cancelled = refl })
      (next (moved (stream 1000 400 false) 0 400)
        (next (moved (stream 1000 0 false) 1000 0) start (funding true 1000 funded_once))
        the_withdrawal)

withdraw_replay_example : ¬ (
    withdraw (text "0x11") (text "0x11") 1041 true 400 1640 (stream 1000 400 false)
    ≡ done (moved (stream 1000 400 false) 0 400))
withdraw_replay_example =
    withdraw_replay (text "0x11") (text "0x11") 1040 true 400 1640 (stream 1000 0 false)
      (moved (stream 1000 400 false) 0 400) (text "0x11") (text "0x11") 1041 true 400 1640
      (moved (stream 1000 400 false) 0 400) withdrawn_once (omega arith)

cancel_stream_final_example :
    ¬ (fund true 10 (stream 1000 400 true) ≡ done (moved (stream 1000 400 true) 10 10))
    × ¬ (
        withdraw (text "0x11") (text "0x11") 1041 true 10 1640 (stream 1000 400 true)
        ≡ done (moved (stream 1000 400 true) 10 10))
    × ¬ (
        cancel_stream
          (text "0x11")
          (text "0x11")
          (text "0xaa")
          1041
          true
          true
          10
          1640
          (stream 1000 400 true)
        ≡ done (moved (stream 1000 400 true) 10 10))
cancel_stream_final_example =
    cancel_stream_final (stream 1000 400 true) (text "0x11") (text "0x11") (text "0xaa") 1041 10
      1640 true true true (moved (stream 1000 400 true) 10 10) refl

-- A vault with one stream, which is then funded.
abbrev opened : Vault
opened = deployed (text "0x0e") (text "0x11")

abbrev with_stream : Done
with_stream =
    unmoved
      (record opened { next_stream_id = 2; streams = put 1 (stream 0 0 false) opened.streams })

abbrev with_funds : Done
with_funds = record {
  vault = record with_stream.vault {
    streams = put 1 (stream 1000 0 false) with_stream.vault.streams;
  };
  token = text "0xcc";
  taken = 1000;
  given = 0;
}

stream_created :
    create_stream (text "0xaa") (text "0xbb") (text "0xcc") (text "0x0102") 1000 opened
    ≡ done with_stream
unfolding create_stream deployed put text text_eq
stream_created = refl

stream_funded : fund_stream 1 true 1000 with_stream.vault ≡ done with_funds
unfolding fund_stream fund put text text_eq
stream_funded = refl

abbrev the_life :
    Reach
      (text "0x0e")
      (text "0x11")
      with_funds.vault
      (λ token. 0 + of_token token [] 0 + of_token token (text "0xcc") 1000)
      (λ token. 0 + of_token token [] 0 + of_token token (text "0xcc") 0)
the_life =
    call with_funds
      (call with_stream opening
        (create_call (text "0xaa") (text "0xbb") (text "0xcc") (text "0x0102") 1000 stream_created))
      (fund_call 1 true 1000 stream_funded)

Reach-solvent_example :
    holdings (text "0xcc") with_funds.vault
      + (0 + of_token (text "0xcc") [] 0 + of_token (text "0xcc") (text "0xcc") 0)
    ≡ 0 + of_token (text "0xcc") [] 0 + of_token (text "0xcc") (text "0xcc") 1000
Reach-solvent_example = Reach-solvent the_life (text "0xcc")

Later-Fixes_example : Fixes (with_stream.vault.streams 1) (with_funds.vault.streams 1)
unfolding deployed
Later-Fixes_example =
    Later-Fixes (after with_funds here (fund_call 1 true 1000 stream_funded)) 1 (omega arith)
