-- ===== src/Protocol/Sample.antt =====
-- An encoding and a hash that meet what the protocol relies on, for runs and instances.
use flare_stealthwage.Prelude.{
  suc, ◌+◌, ◌≡◌, refl, sym, ◌∙◌, pos, negsuc, List, [], ◌∷◌, map, Text, lower, ok, arith,
}
use flare_stealthwage.Protocol.Viem.{Viem, Laws, AbiValue, int, hex, str, pair, fold_case}

-- A text that a zero closes.
closed : Text → Text → Text
closed [] rest = 0 ∷ rest
closed (c ∷ s) rest = suc c ∷ closed s rest

-- A value before the code of those behind it.
put : AbiValue → Text → Text
put (int (pos n)) rest = 1 ∷ n ∷ rest
put (int (negsuc n)) rest = 2 ∷ n ∷ rest
put (hex s) rest = 3 ∷ closed (lower s) rest
put (str s) rest = 4 ∷ closed s rest
put (pair a b) rest = 5 ∷ put a (put b rest)

put_all : List AbiValue → Text
put_all [] = []
put_all (a ∷ xs) = put a (put_all xs)

raise : Text → Text
raise [] = []
raise (c ∷ s) = (c + 1000) ∷ raise s

lower-raise : (s : Text) → lower (raise s) ≡ raise s
unfolding lower raise
lower-raise [] = refl
lower-raise (c ∷ s) = ground (arith, lower-raise s)

raise_injective : (s t : Text) → raise s ≡ raise t → s ≡ t
unfolding raise
raise_injective [] [] e = refl
raise_injective (c ∷ s) (d ∷ t) e = ground (arith, raise_injective s t)
raise_injective [] (d ∷ t) e = cc
raise_injective (c ∷ s) [] e = cc

closed_injective : (s t : Text) {r r' : Text} → closed s r ≡ closed t r' → (s ≡ t) × (r ≡ r')
unfolding closed
closed_injective [] [] e = (refl, cc)
closed_injective (c ∷ s) (d ∷ t) {r} {r'} e = ground (arith, closed_injective s t {r = r} {r' = r'})
closed_injective [] (d ∷ t) e = ground arith
closed_injective (c ∷ s) [] e = ground arith

-- The code of a value tells the value, up to case, and what follows.
put_injective :
    (a b : AbiValue) {r r' : Text} → put a r ≡ put b r' → (fold_case a ≡ fold_case b) × (r ≡ r')
unfolding put
put_injective (int (pos n)) (int (pos m)) e = ground arith
put_injective (int (negsuc n)) (int (negsuc m)) e = ground arith
put_injective (hex s) (hex t) {r} {r'} e =
    ground (arith, closed_injective (lower s) (lower t) {r = r} {r' = r'})
put_injective (str s) (str t) {r} {r'} e = ground (arith, closed_injective s t {r = r} {r' = r'})
put_injective (pair a a') (pair b b') {r} {r'} e =
    let (first, rest) = put_injective a b {r = put a' r} {r' = put b' r'} (ground arith) in
    let (second, after) = put_injective a' b' rest in (cc, after)
put_injective _ _ e = ground arith

put-ne-nil : (a : AbiValue) (r : Text) → put a r ≡ [] → ⊥
unfolding put
put-ne-nil (int (pos n)) r e = cc
put-ne-nil (int (negsuc n)) r e = cc
put-ne-nil _ r e = cc

put_all_injective :
    (xs ys : List AbiValue) → put_all xs ≡ put_all ys → map fold_case xs ≡ map fold_case ys
unfolding put_all
put_all_injective [] [] e = refl
put_all_injective (a ∷ xs) (b ∷ ys) e =
    let (same, rest) = put_injective a b {r = put_all xs} {r' = put_all ys} e in
    cc (put_all_injective xs ys rest)
put_all_injective [] (b ∷ ys) e = absurd (put-ne-nil b (put_all ys) (sym e))
put_all_injective (a ∷ xs) [] e = absurd (put-ne-nil a (put_all xs) e)

-- The hash is the text itself, in lower case. Whatever is decoded is the list `known`.
unfoldable pub sample_viem : List AbiValue → Viem
unfolding raise put_all put closed
sample_viem known = record {
  keccak256 = lower;
  keccak_text = λ s. s;
  encode_abi = λ _ xs. ok (raise (put_all xs));
  decode_abi = λ _ _. ok known;
}

ok_codes : {a b c d : Text} → ok a ≡ ok c → ok b ≡ ok d → lower c ≡ lower d → lower a ≡ lower b
ok_codes hc hd e = cc

pub sample-Laws : (known : List AbiValue) → Laws (sample_viem known)
unfolding sample_viem
sample-Laws known = record {
  encode_injective = λ types xs ys c d hc hd e. put_all_injective xs ys (
      raise_injective (put_all xs) (put_all ys)
        (sym (lower-raise (put_all xs)) ∙ (ok_codes hc hd e ∙ lower-raise (put_all ys))));
  keccak_injective = λ s t e. e;
}
