-- ===== src/Arkade/Packet/Find.antt =====
-- FindEmulatorPacket of pkg/arkade/emulator_packet.go.
use arkade_2fa_vault_poc.Prelude.{
  ℕ, Option, none, some, List, [], ◌∷◌, leb, ◌==◌, if◌then◌else◌, not,
}
use arkade_2fa_vault_poc.Arkade.Packet.{
  Wire, EmulatorEntry, Parsed, parsed, refused, extension_failed, input_out_of_range,
  deserialize_emulator_packet, ◌>>=◌,
}

-- What extension.NewExtensionFromTx returns: each packet has its type, and its bytes where it is an
-- extension.UnknownPacket.
pub data Extension : Type 0 where
  not_found : Extension
  bad_extension : Extension
  found : List (ℕ × Option (List ℕ)) → Extension

abbrev pub packet_type : ℕ
packet_type = 0x01

module _ {Witness : Type 0} (wire : Wire Witness) where
  abbrev pub Packet : Type 0
  Packet = List (EmulatorEntry Witness)

  -- Every entry indexes one of the inputs.
  unfoldable pub check_vins : ℕ → Packet → Packet → Parsed (Option Packet)
  check_vins inputs packet [] = parsed (some packet)
  check_vins inputs packet (entry ∷ entries) =
      if leb inputs entry.vin then refused input_out_of_range else check_vins inputs packet entries

  unfoldable pub scan : ℕ → List (ℕ × Option (List ℕ)) → Parsed (Option Packet)
  scan inputs [] = parsed none
  scan inputs ((kind, none) ∷ ext) = scan inputs ext
  scan inputs ((kind, some bytes) ∷ ext) =
      let rest = scan inputs ext in
      if not (kind == packet_type)
      then rest
      else deserialize_emulator_packet wire bytes >>= λ packet. check_vins inputs packet packet

  unfoldable pub find_emulator_packet : ℕ → Extension → Parsed (Option Packet)
  find_emulator_packet inputs not_found = parsed none
  find_emulator_packet inputs bad_extension = refused extension_failed
  find_emulator_packet inputs (found ext) = scan inputs ext
