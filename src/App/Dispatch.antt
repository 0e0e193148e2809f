-- ===== src/App/Dispatch.antt =====
-- The table that `register` builds, and which handler an action reaches.
use flare_stealthwage.Prelude.{
  ℕ, ◌≡◌, refl, sym, ◌∙◌, Bool, true, false, ◌&&◌, Option, none, some, List, [], ◌∷◌, if◌then◌else◌,
  Text, text, text_eq, ok,
}
use flare_stealthwage.Prelude.Utf8.{utf8_encode}
use flare_stealthwage.Encoding.Hex.{
  string_to_bytes32_hex, bytes_to_hex, pad_zeros, hex_digits, hex_digit,
}
use flare_stealthwage.Framework.Registry.{
  Entry, handle, find, select, or_else, lookup, normalize, empty_bytes32,
}
use flare_stealthwage.Protocol.Digests.{withdraw_tag, settle_tag}
use flare_stealthwage.Stream.Authorize.{Enclave, Env}
use flare_stealthwage.App.Registry.{Handler, stream_handler, hello, goodbye, register}

abbrev pub greeting_hex : Text
greeting_hex = text "0x4752454554494e47000000000000000000000000000000000000000000000000"

abbrev pub stream_hex : Text
stream_hex = text "0x53545245414d0000000000000000000000000000000000000000000000000000"

abbrev pub say_hello_hex : Text
say_hello_hex = text "0x5341595f48454c4c4f0000000000000000000000000000000000000000000000"

abbrev pub say_goodbye_hex : Text
say_goodbye_hex = text "0x5341595f474f4f44425945000000000000000000000000000000000000000000"

abbrev pub auth_withdraw_hex : Text
auth_withdraw_hex = text "0x415554485f574954484452415700000000000000000000000000000000000000"

abbrev pub auth_settle_hex : Text
auth_settle_hex = text "0x415554485f534554544c45000000000000000000000000000000000000000000"

and_false : (b : Bool) → b && false ≡ false
and_false true = refl
and_false false = refl

or_else-none {ℓ} : {H : Type ℓ} (o : Option H) → or_else o none ≡ o
or_else-none (some h) = refl
or_else-none none = refl

pub ok_injective {ℓ} : {A : Type ℓ} {a b : A} → ok a ≡ ok b → a ≡ b
ok_injective h = cc

module _ (e : Enclave) (env : Env) (now : ℕ) where
  abbrev entry : Text → Text → Handler → Entry Handler
  entry t c h = record { op_type = t; op_command = c; handler = h }

  -- The four entries, in the order of their registration.
  abbrev pub table : List (Entry Handler)
  table =
      entry greeting_hex say_hello_hex (hello e env now)
      ∷ entry greeting_hex say_goodbye_hex (goodbye e env now)
      ∷ entry stream_hex auth_withdraw_hex (stream_handler e env now (withdraw_tag e.viem))
      ∷ entry stream_hex auth_settle_hex (stream_handler e env now (settle_tag e.viem))
      ∷ []

  pub register-eq-table : register e env now [] ≡ ok table
  unfolding register handle string_to_bytes32_hex bytes_to_hex pad_zeros hex_digits hex_digit
      utf8_encode text
  register-eq-table = refl

  abbrev is_op : Text → Text → Text → Text → Bool
  is_op t c t' c' = text_eq t' t && text_eq c' c

  -- The handler for a normalized type and command.
  abbrev pub handler_for : Text → Text → Option Handler
  handler_for t c =
      if is_op t c greeting_hex say_hello_hex
      then some (hello e env now)
      else if is_op t c greeting_hex say_goodbye_hex
      then some (goodbye e env now)
      else if is_op t c stream_hex auth_withdraw_hex
      then some (stream_handler e env now (withdraw_tag e.viem))
      else if is_op t c stream_hex auth_settle_hex
      then some (stream_handler e env now (settle_tag e.viem))
      else none

  no_wildcard : (t : Text) → find t empty_bytes32 table ≡ none
  unfolding find empty_bytes32 text_eq text bytes_to_hex hex_digits hex_digit
  no_wildcard t = rw (and_false (text_eq greeting_hex t), and_false (text_eq stream_hex t))

  -- The registry that `register` builds sends each of the four operations to its handler, the two of
  -- the stream module with the tag of their purpose, and every other pair to none.
  pub register-dispatches :
      (handlers : List (Entry Handler)) (op_type op_command : Text)
      → register e env now [] ≡ ok handlers
      → lookup op_type op_command handlers ≡ handler_for (normalize op_type) (normalize op_command)
  unfolding lookup select find
  register-dispatches handlers t c h =
      rw (← same)
        (rw (no_wildcard (normalize t)) (or_else-none (handler_for (normalize t) (normalize c))))
    where
      same : table ≡ handlers
      same = ok_injective (sym register-eq-table ∙ h)
