-- ===== src/Framework/Registry.antt =====
-- `Framework` and `normalize` of typescript/src/base/types.ts, for handlers of any type.
use flare_stealthwage.Prelude.{
  Bool, true, false, ◌&&◌, Option, none, some, List, [], ◌∷◌, ◌++◌, if◌then◌else◌, Text, text,
  text_eq, lower, Result, ok, throw, type_error, then_try,
}
use flare_stealthwage.Prelude.Strings.{starts_with}
use flare_stealthwage.Encoding.Hex.{string_to_bytes32_hex, bytes_to_hex, zeros}
use flare_stealthwage.Json.Value.{Json, str, truthy}

-- `EMPTY_BYTES32`, the bytes32 form of "".
unfoldable pub empty_bytes32 : Text
empty_bytes32 = bytes_to_hex (zeros 32)

-- An entry `[opType, opCommand, handler]`.
pub record Entry {ℓ} (H : Type ℓ) : Type ℓ where
  pub op_type : Text
  pub op_command : Text
  pub handler : H

-- A lower-case text with the prefix "0x".
unfoldable pub prefixed : Text → Text
prefixed s = if starts_with (text "0x") s then s else text "0x" ++ s

-- `normalize` of a text.
unfoldable pub normalize : Text → Text
normalize [] = empty_bytes32
normalize (c ∷ s) = prefixed (lower (c ∷ s))

-- `normalize` of a value that was read from JSON: one that is not truthy stands for "", and another
-- that is no text has no method `toLowerCase`.
abbrev text_or_error : Bool → Json → Result Text
text_or_error false v = ok empty_bytes32
text_or_error true (str s) = ok (normalize s)
text_or_error true v = throw (type_error (text "h.toLowerCase is not a function"))

unfoldable pub normalize_value : Json → Result Text
normalize_value v = text_or_error (truthy v) v

module _ {ℓ} {H : Type ℓ} where
  -- `handle`, which throws on an identifier of more than 32 bytes.
  unfoldable pub handle : Text → Text → H → List (Entry H) → Result (List (Entry H))
  handle op_type op_command handler handlers = then_try (string_to_bytes32_hex op_type) λ t.
      then_try (string_to_bytes32_hex op_command)
        λ c. ok (handlers ++ (record { op_type = t; op_command = c; handler = handler } ∷ []))

  abbrev pub is_entry : Text → Text → Entry H → Bool
  is_entry t c entry = text_eq entry.op_type t && text_eq entry.op_command c

  -- The handler of the first entry for `t` and `c`.
  unfoldable pub find : Text → Text → List (Entry H) → Option H
  find t c [] = none
  find t c (entry ∷ entries) = if is_entry t c entry then some entry.handler else find t c entries

  abbrev pub or_else : Option H → Option H → Option H
  or_else (some h) other = some h
  or_else none other = other

  -- The two loops of `lookup`, on normalized identifiers.
  unfoldable pub select : Text → Text → List (Entry H) → Option H
  select t c handlers = or_else (find t c handlers) (find t empty_bytes32 handlers)

  -- `lookup` of two texts.
  unfoldable pub lookup : Text → Text → List (Entry H) → Option H
  lookup op_type op_command handlers = select (normalize op_type) (normalize op_command) handlers

  -- `lookup` of two values that were read from JSON.
  unfoldable pub lookup_value : Json → Json → List (Entry H) → Result (Option H)
  lookup_value op_type op_command handlers =
      then_try (normalize_value op_type)
        λ t. then_try (normalize_value op_command) λ c. ok (select t c handlers)
