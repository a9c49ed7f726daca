-- ===== src/Arkade/Packet/Found.antt =====
-- Packets that FindEmulatorPacket of pkg/arkade/emulator_packet.go returns.
use arkade_2fa_vault_poc.Prelude.{
  ℕ, ◌<◌, ◌≡◌, refl, not, Option, none, some, List, [], ◌∷◌, All, leb, ◌==◌, arith, if_cases,
}
use arkade_2fa_vault_poc.Arkade.Packet.{
  Wire, EmulatorEntry, Parsed, parsed, refused, deserialize_emulator_packet, ◌>>=◌,
}
use arkade_2fa_vault_poc.Arkade.Packet.Find.{
  Extension, not_found, bad_extension, found, packet_type, check_vins, scan, find_emulator_packet,
}
use arkade_2fa_vault_poc.Arkade.Packet.Checked.{IsPacket, deserialize-IsPacket}

module _ {Witness : Type 0} (wire : Wire Witness) where
  -- A valid packet whose entries index inputs of the transaction.
  pub record IsFound (inputs : ℕ) (packet : List (EmulatorEntry Witness)) : Type 0 where
    pub valid : IsPacket packet
    pub vins : All (λ (entry : EmulatorEntry Witness). entry.vin < inputs) packet

  abbrev Finds : ℕ → Parsed (Option (List (EmulatorEntry Witness))) → Type 0
  Finds inputs (refused e) = Unit
  Finds inputs (parsed none) = Unit
  Finds inputs (parsed (some packet)) = IsFound inputs packet

  check_vins-Finds :
      (inputs : ℕ) (packet entries : List (EmulatorEntry Witness))
      → IsPacket packet
      → (All (λ (entry : EmulatorEntry Witness). entry.vin < inputs) entries
          → All (λ (entry : EmulatorEntry Witness). entry.vin < inputs) packet)
      → Finds inputs (check_vins wire inputs packet entries)
  unfolding check_vins
  check_vins-Finds inputs packet [] valid all = record { valid = valid; vins = all tt }
  check_vins-Finds inputs packet (entry ∷ entries) valid all =
      if_cases (Finds inputs) (leb inputs entry.vin) (λ _. tt)
        (λ low. check_vins-Finds inputs packet entries valid (λ h. all (ground (arith, low), h)))

  scan-Finds : (inputs : ℕ) (ext : List (ℕ × Option (List ℕ))) → Finds inputs (scan wire inputs ext)
  unfolding scan
  scan-Finds inputs [] = tt
  scan-Finds inputs ((kind, none) ∷ ext) = scan-Finds inputs ext
  scan-Finds inputs ((kind, some bytes) ∷ ext) =
      if_cases (Finds inputs) (not (kind == packet_type)) (λ _. scan-Finds inputs ext)
        (λ _. go (deserialize_emulator_packet wire bytes) refl)
    where
      go :
          (r : Parsed (List (EmulatorEntry Witness)))
          → deserialize_emulator_packet wire bytes ≡ r
          → Finds inputs (r >>= λ packet. check_vins wire inputs packet packet)
      go (refused e) h = tt
      go (parsed packet) h =
          check_vins-Finds inputs packet packet (deserialize-IsPacket wire bytes packet h)
            (λ all. all)

  pub find_emulator_packet-IsFound :
      (inputs : ℕ) (extension : Extension) (packet : List (EmulatorEntry Witness))
      → find_emulator_packet wire inputs extension ≡ parsed (some packet)
      → IsFound inputs packet
  unfolding find_emulator_packet
  find_emulator_packet-IsFound inputs not_found packet h = cc
  find_emulator_packet-IsFound inputs bad_extension packet h = cc
  find_emulator_packet-IsFound inputs (found ext) packet h = rw h at (scan-Finds inputs ext)
