-- ===== src/Script/Settled.antt =====
-- What test-settle.ts has sent, and what it found, where it ends well.
use flare_stealthwage.Prelude.{ℕ, ◌^◌, ◌≡◌, refl, sym, ap, ◌∙◌, [], ◌∷◌, ℤ, pos, Text, ok}
use flare_stealthwage.Prelude.Int.{◌+ℤ◌, ◌-ℤ◌, eq_ℤ_lem}
use flare_stealthwage.Json.Value.{Json}
use flare_stealthwage.Script.Run.{
  World, Config, read_balance, Transaction, fund, cancel_stream, History, done,
}
use flare_stealthwage.Script.Traces.{
  Extends, Extends-trans, Grows, ask-Grows, lift-Grows, bind-Grows, must-Grows, Ends, pure-Ends,
  Ends-done, bind-Ends, ask-Ends, must-Ends, weaken-Ends, grown-Ends,
}
use flare_stealthwage.Script.Settle.{Split, ask_settle, cancel_and_check, test_settle}
use flare_stealthwage.Script.Sending.{
  Sent, call-Extends, same-Extends, nil-Extends, Sent-later, Sent-earlier, confirmed-Ends,
  created-Grows, funded-Ends,
}

-- The refund and the payment make up the amount, and the payment is the accrual.
abbrev pub IsExact : ℤ → Split → Type 0
IsExact amount r = (r.refunded +ℤ r.paid ≡ amount) × (r.paid ≡ r.accrued)

module _ (w : World) (c : Config) where
  -- A balance that was read after a transaction, sent after the calls `h`: it is higher by `rise` than it was before.
  pub record Rises (tx : Transaction) (owner : Text) (rise : ℤ) (former : ℤ) (h calls : History)
      : Type 0 where
    pub at : History
    pub sent : Sent tx h at
    pub later : Extends at calls
    pub balance : ℤ
    pub read : w.balance at owner ≡ ok balance
    pub risen : rise ≡ balance -ℤ former

  record Cancels (id amount employer_before recipient_before : ℤ) (h calls : History) (r : Split)
      : Type 0 where
    deadline : ℤ
    signature : Text
    refund :
        Rises
          (cancel_stream id r.accrued deadline signature)
          c.employer
          r.refunded
          employer_before
          h
          calls
    payment :
        Rises
          (cancel_stream id r.accrued deadline signature)
          c.recipient
          r.paid
          recipient_before
          h
          calls
    exact : IsExact amount r

  cancel_and_check-Ends :
      (id amount employer_before recipient_before : ℤ) (auth : Json) (h : History)
      → Ends
          (Cancels id amount employer_before recipient_before h)
          (cancel_and_check w c id amount employer_before recipient_before auth)
          h
  unfolding cancel_and_check
  cancel_and_check-Ends id amount employer_before recipient_before auth h =
      let Q = Cancels id amount employer_before recipient_before h in
      grown-Ends Q _ _ h (lift-Grows _) λ h1 accrued x1.
        grown-Ends Q _ _ h1 (lift-Grows _) λ h2 deadline x2.
          grown-Ends Q _ _ h2 (lift-Grows _) λ h3 signature x3.
            bind-Ends _ Q _ _ h3 (confirmed-Ends w _ _ h3) λ h4 hash sent.
              bind-Ends _ Q _ _ h4 (ask-Ends _ _ h4) λ h5 employer_after e5.
                bind-Ends _ Q _ _ h5 (ask-Ends _ _ h5) λ h6 recipient_after e6.
                  bind-Ends _ Q _ _ h6 (must-Ends _ _ h6) λ h7 u whole.
                    bind-Ends _ Q _ _ h7 (must-Ends _ _ h7) λ h8 u' exact.
                      grown-Ends Q _ _ h8 (ask-Grows _ _) λ h9 row x9.
                        grown-Ends Q _ _ h9 (must-Grows _ _) λ h10 u'' x10. pure-Ends Q _ h10 (
                          let sent' = Sent-earlier (Extends-trans x1 (Extends-trans x2 x3)) sent in
                          let rest = Extends-trans (call-Extends (e6.0)) (
                            Extends-trans (same-Extends (whole.0))
                              (Extends-trans (same-Extends (exact.0)) (Extends-trans x9 x10))) in
                          record {
                            deadline = deadline;
                            signature = signature;
                            refund = record {
                              at = h4;
                              sent = sent';
                              later = Extends-trans (call-Extends (e5.0)) rest;
                              balance = employer_after;
                              read = e5.1;
                              risen = refl;
                            };
                            payment = record {
                              at = h5;
                              sent = Sent-later sent' (call-Extends (e5.0));
                              later = rest;
                              balance = recipient_after;
                              read = e6.1;
                              risen = refl;
                            };
                            exact = (eq_ℤ_lem _ amount (whole.1), eq_ℤ_lem _ accrued (exact.1));
                          })

  ask_settle-Grows :
      (id : ℤ) (commitment sealed : Text) → Grows (ask_settle w c id commitment sealed)
  unfolding ask_settle
  ask_settle-Grows id commitment sealed = bind-Grows _ _ (ask-Grows _ _) λ issued_at.
      bind-Grows _ _ (lift-Grows _) λ challenge. bind-Grows _ _ (ask-Grows _ _) λ signature.
        bind-Grows _ _ (ask-Grows _ _) λ sent_at.
          bind-Grows _ _ (ask-Grows _ _) λ answer. bind-Grows _ _ (must-Grows _ _) λ u. lift-Grows _

  -- The run: the amount is one token, the stream was funded with it, then the balances were read, and then
  -- the cancellation was sent, with the accrual that the payment is.
  pub record IsSettled (calls : History) (r : Split) : Type 0 where
    pub decimals : ℕ
    pub reads_decimals : w.decimals [] ≡ ok decimals
    pub id : ℤ
    pub at : History
    pub funding : Sent (fund id (pos (10 ^ decimals))) [] at
    pub employer_before : ℤ
    pub reads_employer : w.balance at c.employer ≡ ok employer_before
    pub recipient_before : ℤ
    pub reads_recipient : w.balance (read_balance c.employer ∷ at) c.recipient ≡ ok recipient_before
    pub deadline : ℤ
    pub signature : Text
    pub refund :
        Rises
          (cancel_stream id r.accrued deadline signature)
          c.employer
          r.refunded
          employer_before
          at
          calls
    pub payment :
        Rises
          (cancel_stream id r.accrued deadline signature)
          c.recipient
          r.paid
          recipient_before
          at
          calls
    pub exact : IsExact (pos (10 ^ decimals)) r

  Rises-earlier :
      {tx : Transaction} {owner : Text} {rise former : ℤ} {k h calls : History}
      → Extends k h
      → Rises tx owner rise former h calls
      → Rises tx owner rise former k calls
  Rises-earlier x r = record {
    at = r.at;
    sent = Sent-earlier x r.sent;
    later = r.later;
    balance = r.balance;
    read = r.read;
    risen = r.risen;
  }

  -- The last part, where the first parts have come so far.
  settled :
      (h : History) (decimals : ℕ) (id : ℤ) (at : History) (employer_before recipient_before : ℤ)
      (auth : Json)
      → w.decimals [] ≡ ok decimals
      → Sent (fund id (pos (10 ^ decimals))) [] at
      → w.balance at c.employer ≡ ok employer_before
      → w.balance (read_balance c.employer ∷ at) c.recipient ≡ ok recipient_before
      → Extends at h
      → Ends IsSettled
          (cancel_and_check w c id (pos (10 ^ decimals)) employer_before recipient_before auth)
          h
  settled h decimals id at employer_before recipient_before auth reads funding employer recipient
        x =
      weaken-Ends (Cancels id (pos (10 ^ decimals)) employer_before recipient_before h) IsSettled _
        h
        (λ calls r s. record {
          decimals = decimals;
          reads_decimals = reads;
          id = id;
          at = at;
          funding = funding;
          employer_before = employer_before;
          reads_employer = employer;
          recipient_before = recipient_before;
          reads_recipient = recipient;
          deadline = s.deadline;
          signature = s.signature;
          refund = Rises-earlier x s.refund;
          payment = Rises-earlier x s.payment;
          exact = s.exact;
        })
        (cancel_and_check-Ends id (pos (10 ^ decimals)) employer_before recipient_before auth h)

  test_settle-Ends : Ends IsSettled (test_settle w c) []
  unfolding test_settle
  test_settle-Ends =
      let Q = IsSettled in
      bind-Ends _ Q _ _ [] (must-Ends _ _ []) λ h1 u key.
        bind-Ends _ Q _ _ h1 (must-Ends _ _ h1) λ h2 u' ecies.
          bind-Ends _ Q _ _ h2 (ask-Ends _ _ h2) λ h3 decimals d.
            grown-Ends Q _ _ h3 (ask-Grows _ _) λ h4 start x4.
              grown-Ends Q _ _ h4 (lift-Grows _) λ h5 terms_hex x5.
                grown-Ends Q _ _ h5 (lift-Grows _) λ h6 commitment x6.
                  grown-Ends Q _ _ h6 (lift-Grows _) λ h7 cipher x7.
                    grown-Ends Q _ _ h7 (created-Grows w _ _ _) λ h8 id x8.
                      bind-Ends _ Q _ _ h8 (funded-Ends w _ _ id _ h8) λ h9 hash funding.
                        bind-Ends _ Q _ _ h9 (ask-Ends _ _ h9) λ h10 employer_before e10.
                          bind-Ends _ Q _ _ h10 (ask-Ends _ _ h10) λ h11 recipient_before e11.
                            grown-Ends Q _ _ h11 (ask_settle-Grows id _ _) λ h12 auth x12.
                              settled h12 decimals id h9 employer_before recipient_before auth
                                (ap w.decimals (sym (ecies.0 ∙ key.0)) ∙ d.1)
                                (Sent-earlier (nil-Extends h8) funding) (e10.1)
                                (ap (λ k. w.balance k c.recipient) (sym (e10.0)) ∙ e11.1)
                                (Extends-trans (call-Extends (e10.0))
                                  (Extends-trans (call-Extends (e11.0)) x12))

  -- Where test-settle.ts ends well, it has funded the stream with exactly one token, at the decimals that
  -- were read first, and has sent a cancellation after that; the refund and the payment, the rises of the
  -- two balances from before the cancellation to after it, make up that token, and the payment is the
  -- accrual that the cancellation was sent with.
  pub test_settle-IsSettled :
      (calls : History) (r : Split) → test_settle w c [] ≡ (calls, done r) → IsSettled calls r
  test_settle-IsSettled calls r e =
      Ends-done IsSettled (test_settle w c) [] calls r test_settle-Ends e
