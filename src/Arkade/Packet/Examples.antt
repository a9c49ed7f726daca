-- ===== src/Arkade/Packet/Examples.antt =====
-- Concrete packets of pkg/arkade/emulator_packet.go.
use arkade_2fa_vault_poc.Prelude.{ℕ, ◌≡◌, refl, Option, none, some, List, [], ◌∷◌, length, arith}
use arkade_2fa_vault_poc.Arkade.Packet.{
  Wire, EmulatorEntry, parsed, check_entries, validate, serialize, serialize_entries, read_entries,
  read_entry, read_blob, read_witness, new_packet, deserialize_emulator_packet,
}
use arkade_2fa_vault_poc.Arkade.Packet.Checked.{IsPacket, deserialize-IsPacket}
use arkade_2fa_vault_poc.Arkade.Packet.RoundTrip.{WireLaws}

-- Formats of one number and of a length-prefixed witness.
abbrev pub read_number : List ℕ → Option (ℕ × List ℕ)
read_number [] = none
read_number (n ∷ rest) = some (n, rest)

abbrev pub read_prefixed : List ℕ → Option (List ℕ)
read_prefixed [] = none
read_prefixed (n ∷ w) = some w

abbrev pub plain_wire : Wire (List ℕ)
plain_wire = record {
  write_var_int = λ n. n ∷ [];
  read_var_int = read_number;
  write_tx_witness = λ w. length w ∷ w;
  read_tx_witness = read_prefixed;
  no_witness = [];
}

pub plain_laws : WireLaws plain_wire
plain_laws = record {
  var_int = λ n rest _. refl;
  tx_witness = λ w _. refl;
  some_byte = λ w. omega arith;
}

abbrev two_entries : List (EmulatorEntry (List ℕ))
two_entries =
    record { vin = 0; script = 0x51 ∷ []; witness = 7 ∷ [] }
    ∷ record { vin = 300; script = 0x51 ∷ 0x69 ∷ []; witness = [] }
    ∷ []

two_entries_read :
    deserialize_emulator_packet plain_wire (serialize plain_wire two_entries) ≡ parsed two_entries
unfolding deserialize_emulator_packet serialize serialize_entries read_entries read_entry read_blob
    read_witness new_packet validate check_entries
two_entries_read = refl

deserialize-IsPacket_example : IsPacket two_entries
deserialize-IsPacket_example =
    deserialize-IsPacket plain_wire (serialize plain_wire two_entries) two_entries two_entries_read
