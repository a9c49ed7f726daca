-- ===== src/Arkade/Packet/RoundTrip.antt =====
-- Packets through Serialize and DeserializeEmulatorPacket of pkg/arkade/emulator_packet.go.
use mathlib.Core.List.{append_assoc}
use arkade_2fa_vault_poc.Prelude.{
  ℕ, ◌+◌, ◌*◌, ◌/◌, ◌%◌, ◌^◌, ◌<◌, ◌≤◌, ◌≡◌, refl, ap, ◌∙◌, true, false, none, some, List, [], ◌∷◌,
  ◌++◌, length, length-append, take-append, drop-append, ltb, arith,
}
use arkade_2fa_vault_poc.Arkade.Packet.{
  Wire, EmulatorEntry, max_entry_count, max_script_length, max_witness_length, max_total_entry_size,
  PacketError, script_too_long, witness_too_long, parsed, validate, new_packet, vin_bytes,
  blob_bytes, serialize_entries, serialize, read_blob, read_witness, read_entry, read_entries,
  deserialize_emulator_packet,
}
use arkade_2fa_vault_poc.Arkade.Packet.Checked.{validate-none}

-- What is documented of the formats: each reader undoes its writer, and a witness has its item count at least.
pub record WireLaws {Witness : Type 0} (wire : Wire Witness) : Type 0 where
  pub var_int :
      (n : ℕ) (rest : List ℕ)
      → n < 2 ^ 64
      → wire.read_var_int (wire.write_var_int n ++ rest) ≡ some (n, rest)
  pub tx_witness :
      (w : Witness)
      → length (wire.write_tx_witness w) ≤ max_witness_length
      → wire.read_tx_witness (wire.write_tx_witness w) ≡ some w
  pub some_byte : (w : Witness) → 0 < length (wire.write_tx_witness w)

module _ {Witness : Type 0} (wire : Wire Witness) (laws : WireLaws wire) where
  -- The sizes of the entries are within the limits of the parser, from a total on.
  abbrev pub Fits : ℕ → List (EmulatorEntry Witness) → Type 0
  Fits total [] = Unit
  Fits total (entry ∷ p) =
      (entry.vin < 2 ^ 16)
      × ((length entry.script ≤ max_script_length)
          × ((length (wire.write_tx_witness entry.witness) ≤ max_witness_length)
              × ((total + length entry.script + length (wire.write_tx_witness entry.witness)
                    ≤ max_total_entry_size)
                  × Fits
                      (total + length entry.script + length (wire.write_tx_witness entry.witness))
                      p)))

  pub read_blob_lem :
      (max_length : ℕ) (e : PacketError) (total : ℕ) (blob rest : List ℕ)
      → length blob ≤ max_length
      → total + length blob ≤ max_total_entry_size
      → read_blob wire max_length e total (blob_bytes wire blob ++ rest)
        ≡ parsed (blob, (total + length blob, rest))
  unfolding read_blob
  read_blob_lem max_length e total blob rest short fits =
      let read : wire.read_var_int (blob_bytes wire blob ++ rest)
          ≡ some (length blob, blob ++ rest) =
        ap (λ (bytes : List ℕ). wire.read_var_int bytes)
          (append_assoc (wire.write_var_int (length blob)) blob rest)
        ∙ laws.var_int (length blob) (blob ++ rest) (omega (arith, fits)) in
      let sum : (total + length blob) % 2 ^ 64 ≡ total + length blob = omega (arith, fits) in
      let in_length : ltb max_length (length blob) ≡ false = ground (arith, short) in
      let in_total : ltb max_total_entry_size (total + length blob) ≡ false =
        ground (arith, fits) in
      let supplied : ltb (length (blob ++ rest)) (length blob) ≡ false =
        ground (arith, length-append blob rest) in
      rw (read, sum, in_length, in_total, supplied, take-append blob rest, drop-append blob rest)
        refl

  read_witness_lem :
      (w : Witness)
      → length (wire.write_tx_witness w) ≤ max_witness_length
      → read_witness wire (wire.write_tx_witness w) ≡ parsed w
  unfolding read_witness
  read_witness_lem w short =
      let some_bytes : ltb 0 (length (wire.write_tx_witness w)) ≡ true =
        ground (arith, laws.some_byte w) in
      rw (some_bytes, laws.tx_witness w short) refl

  read_entry_lem :
      (entry : EmulatorEntry Witness) (total : ℕ) (rest : List ℕ)
      → entry.vin < 2 ^ 16
      → length entry.script ≤ max_script_length
      → length (wire.write_tx_witness entry.witness) ≤ max_witness_length
      → total + length entry.script + length (wire.write_tx_witness entry.witness)
        ≤ max_total_entry_size
      → read_entry wire total (
          vin_bytes entry.vin
          ++ (blob_bytes wire entry.script
              ++ (blob_bytes wire (wire.write_tx_witness entry.witness) ++ rest)))
        ≡ parsed (
          entry,
          (total + length entry.script + length (wire.write_tx_witness entry.witness), rest),
        )
  unfolding read_entry
  read_entry_lem entry total rest vin_fits script_fits witness_fits fits =
      let w : List ℕ = wire.write_tx_witness entry.witness in
      let index : entry.vin % 256 + 256 * (entry.vin / 256 % 256) ≡ entry.vin =
        omega (arith, vin_fits) in
      let script =
        read_blob_lem max_script_length script_too_long total entry.script
          (blob_bytes wire (wire.write_tx_witness entry.witness) ++ rest) script_fits
          (omega (arith, fits)) in
      let witness =
        read_blob_lem max_witness_length witness_too_long (total + length entry.script)
          (wire.write_tx_witness entry.witness) rest witness_fits fits in
      rw (index, script, witness, read_witness_lem entry.witness witness_fits) refl

  read_entries_lem :
      (p : List (EmulatorEntry Witness)) (total : ℕ)
      → Fits total p
      → read_entries wire (length p) total (serialize_entries wire p) ≡ parsed (p, [])
  unfolding read_entries serialize_entries
  read_entries_lem [] total h = refl
  read_entries_lem (entry ∷ p) total (vin_fits, (script_fits, (witness_fits, (fits, h)))) =
      rw
        (
          read_entry_lem entry total (serialize_entries wire p) vin_fits script_fits witness_fits
              fits,
          read_entries_lem p
              (total + length entry.script + length (wire.write_tx_witness entry.witness)) h,
        )
        refl

pub deserialize-serialize :
    {Witness : Type 0} (wire : Wire Witness) (laws : WireLaws wire)
    (p : List (EmulatorEntry Witness))
    → Fits wire laws 0 p
    → validate p ≡ none
    → deserialize_emulator_packet wire (serialize wire p) ≡ parsed p
unfolding deserialize_emulator_packet serialize new_packet
deserialize-serialize wire laws p fits valid =
    let packet = validate-none p valid in
    let few : ltb max_entry_count (length p) ≡ false = ground (arith, packet.few) in
    rw
      (
        laws.var_int (length p) (serialize_entries wire p) (omega (arith, packet.few)),
        few,
        read_entries_lem wire laws p 0 fits,
        valid,
      )
      refl
