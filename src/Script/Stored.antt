-- ===== src/Script/Stored.antt =====
-- gen-tee-keys.ts: the keys that it writes and the keys that it reads.
use flare_stealthwage.Prelude.{
  ℕ, ◌≡◌, ◌≢◌, refl, sym, ap, ◌∙◌, true, some, [], ◌∷◌, ◌++◌, Text, text, ok, Option-cases, arith,
  inl, inr,
}
use flare_stealthwage.Script.Keys.{
  trim_end, Key, ecies_privkey, signer_privkey, name_of, start_of, key_line, set_in, upsert, found,
  matched,
}
use flare_stealthwage.Script.Lines.{
  is_plain, one_line, trim_end_rest, put_line, no_dollar, replaced-eq-put_line,
}
use flare_stealthwage.Script.Placed.{found-put_line, found-appended}

name_of-cons : (key : Key) → (c : ℕ) × (rest : Text) × (name_of key ≡ c ∷ rest)
unfolding text
name_of-cons ecies_privkey = (_, _, refl)
name_of-cons signer_privkey = (_, _, refl)

-- A name has neither an end of a line nor "$" in it.
name_of-plain :
    (key : Key)
    → (one_line (start_of (name_of key)) ≡ true) × (no_dollar (start_of (name_of key)) ≡ true)
unfolding text
name_of-plain ecies_privkey = (refl, refl)
name_of-plain signer_privkey = (refl, refl)

no_dollar-append :
    (s t : Text) → no_dollar s ≡ true → no_dollar t ≡ true → no_dollar (s ++ t) ≡ true
no_dollar-append [] t hs ht = ht
no_dollar-append (c ∷ s) t hs ht = ground (arith, no_dollar-append s t)

key_line-no_dollar :
    (name value : Text)
    → no_dollar (start_of name) ≡ true
    → no_dollar value ≡ true
    → no_dollar (key_line name value) ≡ true
key_line-no_dollar name value n v =
    no_dollar-append (start_of name) (b'"' ∷ (value ++ (b'"' ∷ []))) n
      (no_dollar-append value (b'"' ∷ []) v refl)

matched-found :
    (body : Text) (key : Key) (u : Text)
    → found (start_of (name_of key)) true body ≡ some u
    → matched body key ≡ ok u
unfolding matched
matched-found body key u e = rw (matched, e) refl

found-set_in :
    (body : Text) (k : ℕ) (rest : Text) (d : ℕ) (value : Text)
    → one_line (start_of (k ∷ rest)) ≡ true
    → no_dollar (start_of (k ∷ rest)) ≡ true
    → is_plain (d ∷ value) ≡ true
    → no_dollar (d ∷ value) ≡ true
    → found
        (start_of (k ∷ rest))
        true
        (set_in (start_of (k ∷ rest)) (key_line (k ∷ rest) (d ∷ value)) body)
      ≡ some (d ∷ value)
found-set_in body k rest d value start whole plain literal =
    let p' = rest ++ (b'=' ∷ []) in
    let line = key_line (k ∷ rest) (d ∷ value) in
    rw
      (replaced-eq-put_line (k ∷ p') line [] true body
        (key_line-no_dollar (k ∷ rest) (d ∷ value) whole literal))
      (elim (Option-cases (put_line (k ∷ p') line true body)) [
        | inr (t, e) ↦ rw e (found-put_line k p' d value plain start true body t e)
        | inl e ↦
            let (w, same) = trim_end_rest body in
            rw e (
              found-appended k p' d value plain start true (trim_end body) w
                (ap (put_line (k ∷ p') line true) (sym same) ∙ e))
      ])

-- What `upsert` wrote under a key of the script is what a later run finds under it, whatever the file
-- held before: the value is not empty and has no quote, no end of a line and no "$".
pub matched-upsert :
    (body : Text) (key : Key) (value : Text)
    → value ≢ []
    → is_plain value ≡ true
    → no_dollar value ≡ true
    → matched (upsert body key value) key ≡ ok value
unfolding upsert
matched-upsert body key [] v plain literal = absurd (v refl)
matched-upsert body key (d ∷ value) v plain literal =
    let (k, rest, name) = name_of-cons key in
    let (start, whole) = name_of-plain key in
    matched-found (upsert body key (d ∷ value)) key (d ∷ value) (
      rw name (
        found-set_in body k rest d value (ap (λ n. one_line (start_of n)) (sym name) ∙ start)
          (ap (λ n. no_dollar (start_of n)) (sym name) ∙ whole) plain literal))
