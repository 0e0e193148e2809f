-- ===== src/Framework/Tests.antt =====
-- The registry at concrete entries.
use flare_stealthwage.Prelude.{ℕ, ◌≡◌, ◌⊎◌, ◌↔◌, some, List, [], ◌∷◌, text, lower}
use flare_stealthwage.Framework.Registry.{Entry, normalize, empty_bytes32, lookup}
use flare_stealthwage.Framework.Lookup.{First, Absent, lookup_iff, lookup-lower}

abbrev entries : List (Entry ℕ)
entries =
    record { op_type = text "0x0a"; op_command = text "0x0b"; handler = 1 }
    ∷ record { op_type = text "0x0a"; op_command = empty_bytes32; handler = 2 }
    ∷ []

lookup_iff_example : (lookup (text "0x0A") (text "0x0c") entries ≡ some 2) ↔ (
    First (normalize (text "0x0A")) (normalize (text "0x0c")) 2 entries
    ⊎ (Absent (normalize (text "0x0A")) (normalize (text "0x0c")) entries
        × First (normalize (text "0x0A")) empty_bytes32 2 entries))
lookup_iff_example = lookup_iff (text "0x0A") (text "0x0c") 2 entries

lookup-lower_test :
    lookup (lower (text "0x0A")) (lower (text "0x0C")) entries
    ≡ lookup (text "0x0A") (text "0x0C") entries
lookup-lower_test = lookup-lower (text "0x0A") (text "0x0C") entries
