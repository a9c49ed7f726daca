-- ===== src/Arkade/Packet/Masked.antt =====
-- serializeEmulatorPacketMasked of pkg/arkade/emulator_packet.go, the encoding under the signature hash.
use arkade_2fa_vault_poc.Prelude.{ℕ, ◌+◌, ◌^◌, ◌<◌, ◌≤◌, List, [], ◌∷◌, length}
use arkade_2fa_vault_poc.Arkade.Packet.{
  Wire, EmulatorEntry, max_script_length, max_total_entry_size,
}
use arkade_2fa_vault_poc.Arkade.Packet.RoundTrip.{WireLaws}

module _ {Witness : Type 0} (wire : Wire Witness) (laws : WireLaws wire) where
  abbrev pub stripped : EmulatorEntry Witness → EmulatorEntry Witness
  stripped entry = record entry { witness = wire.no_witness }

  -- The packet without its witnesses.
  abbrev pub strip : List (EmulatorEntry Witness) → List (EmulatorEntry Witness)
  strip [] = []
  strip (entry ∷ p) = stripped entry ∷ strip p

  abbrev pub MaskedFits : ℕ → List (EmulatorEntry Witness) → Type 0
  MaskedFits total [] = Unit
  MaskedFits total (entry ∷ p) =
      (entry.vin < 2 ^ 16)
      × ((length entry.script ≤ max_script_length)
          × ((total + length entry.script ≤ max_total_entry_size)
              × MaskedFits (total + length entry.script) p))
