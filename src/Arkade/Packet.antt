-- ===== src/Arkade/Packet.antt =====
-- pkg/arkade/emulator_packet.go: the emulator packet, its encoding and its checks. Writing to a
-- bytes.Buffer does not fail.
pub mod Checked
pub mod RoundTrip
pub mod Masked
pub mod Find
pub mod Found
pub mod Examples
use arkade_2fa_vault_poc.Prelude.{
  ℕ, zero, suc, ◌+◌, ◌*◌, ◌/◌, ◌%◌, ◌^◌, Bool, true, false, ◌||◌, Option, none, some, List, [], ◌∷◌,
  ◌++◌, length, take, drop, ltb, ◌==◌, if◌then◌else◌,
}

-- What the code takes from wire, psbt and txutils; `no_witness` is the nil wire.TxWitness.
pub record Wire (Witness : Type 0) : Type 0 where
  pub write_var_int : ℕ → List ℕ
  pub read_var_int : List ℕ → Option (ℕ × List ℕ)
  pub write_tx_witness : Witness → List ℕ
  pub read_tx_witness : List ℕ → Option Witness
  pub no_witness : Witness

pub record EmulatorEntry (Witness : Type 0) : Type 0 where
  pub vin : ℕ
  pub script : List ℕ
  pub witness : Witness

abbrev pub max_entry_count : ℕ
max_entry_count = 1000

abbrev pub max_script_length : ℕ
max_script_length = 10000

abbrev pub max_witness_length : ℕ
max_witness_length = 1000000

abbrev pub max_total_entry_size : ℕ
max_total_entry_size = max_script_length + max_witness_length

pub data PacketError : Type 0 where
  empty_packet too_many_entries empty_script duplicate_vin read_failed script_too_long : PacketError
  witness_too_long total_too_large unexpected_eof bad_witness trailing_bytes : PacketError
  extension_failed input_out_of_range : PacketError

pub data Parsed (A : Type 0) : Type 0 where
  refused : PacketError → Parsed A
  parsed : A → Parsed A

infixl 5 ◌>>=◌
abbrev pub ◌>>=◌ : {A B : Type 0} → Parsed A → (A → Parsed B) → Parsed B
refused e >>= f = refused e
parsed a >>= f = f a

abbrev pub is_seen : ℕ → List ℕ → Bool
is_seen vin [] = false
is_seen vin (v ∷ seen) = (v == vin) || is_seen vin seen

module _ {Witness : Type 0} where
  -- The loop of Validate, over the vins met.
  unfoldable pub check_entries : List ℕ → List (EmulatorEntry Witness) → Option PacketError
  check_entries seen [] = none
  check_entries seen (entry ∷ p) =
      if length entry.script == 0
      then some empty_script
      else if is_seen entry.vin seen
      then some duplicate_vin
      else check_entries (entry.vin ∷ seen) p

  unfoldable pub validate : List (EmulatorEntry Witness) → Option PacketError
  unfolding check_entries
  validate p =
      if length p == 0
      then some empty_packet
      else if ltb max_entry_count (length p)
      then some too_many_entries
      else check_entries [] p

  abbrev pub valid_or :
      Option PacketError → List (EmulatorEntry Witness) → Parsed (List (EmulatorEntry Witness))
  valid_or none p = parsed p
  valid_or (some e) p = refused e

  unfoldable pub new_packet : List (EmulatorEntry Witness) → Parsed (List (EmulatorEntry Witness))
  new_packet entries = valid_or (validate entries) entries

-- A little-endian uint16.
abbrev pub vin_bytes : ℕ → List ℕ
vin_bytes vin = vin % 256 ∷ vin / 256 % 256 ∷ []

abbrev pub read_vin : List ℕ → Parsed (ℕ × List ℕ)
read_vin [] = refused read_failed
read_vin (a ∷ []) = refused read_failed
read_vin (a ∷ b ∷ rest) = parsed (a + 256 * b, rest)

module _ {Witness : Type 0} (wire : Wire Witness) where
  abbrev pub blob_bytes : List ℕ → List ℕ
  blob_bytes blob = wire.write_var_int (length blob) ++ blob

  unfoldable pub serialize_entries : List (EmulatorEntry Witness) → List ℕ
  serialize_entries [] = []
  serialize_entries (entry ∷ p) =
      vin_bytes entry.vin
      ++ (blob_bytes entry.script
          ++ (blob_bytes (wire.write_tx_witness entry.witness) ++ serialize_entries p))

  unfoldable pub serialize : List (EmulatorEntry Witness) → List ℕ
  serialize p = wire.write_var_int (length p) ++ serialize_entries p

  -- serializeEmulatorPacketMasked: every witness has length 0.
  unfoldable pub serialize_masked_entries : List (EmulatorEntry Witness) → List ℕ
  serialize_masked_entries [] = []
  serialize_masked_entries (entry ∷ p) =
      vin_bytes entry.vin
      ++ (blob_bytes entry.script ++ (wire.write_var_int 0 ++ serialize_masked_entries p))

  unfoldable pub serialize_masked : List (EmulatorEntry Witness) → List ℕ
  serialize_masked p = wire.write_var_int (length p) ++ serialize_masked_entries p

  -- A script or a witness, its declared length against `max_length` and the total: the blob, the new
  -- uint64 total and what is left.
  abbrev pub sized_blob : ℕ → PacketError → ℕ → Option (ℕ × List ℕ) → Parsed (List ℕ × (ℕ × List ℕ))
  sized_blob max_length too_long total none = refused read_failed
  sized_blob max_length too_long total (some (n, rest)) =
      let total' = (total + n) % 2 ^ 64 in
      if ltb max_length n
      then refused too_long
      else if ltb max_total_entry_size total'
      then refused total_too_large
      else if ltb (length rest) n
      then refused unexpected_eof
      else parsed (take n rest, (total', drop n rest))

  unfoldable pub read_blob : ℕ → PacketError → ℕ → List ℕ → Parsed (List ℕ × (ℕ × List ℕ))
  read_blob max_length too_long total bytes =
      sized_blob max_length too_long total (wire.read_var_int bytes)

  abbrev pub or_bad_witness : Option Witness → Parsed Witness
  or_bad_witness none = refused bad_witness
  or_bad_witness (some w) = parsed w

  unfoldable pub read_witness : List ℕ → Parsed Witness
  read_witness blob =
      if ltb 0 (length blob)
      then or_bad_witness (wire.read_tx_witness blob)
      else parsed wire.no_witness

  unfoldable pub read_entry : ℕ → List ℕ → Parsed (EmulatorEntry Witness × (ℕ × List ℕ))
  unfolding read_blob read_witness
  read_entry total bytes = do
    (vin, after_vin) ← read_vin bytes
    (script, (total₁, after_script)) ← read_blob max_script_length script_too_long total after_vin
    (blob, (total₂, rest)) ← read_blob max_witness_length witness_too_long total₁ after_script
    witness ← read_witness blob
    parsed (record { vin = vin; script = script; witness = witness }, (total₂, rest))

  -- The loop over the entries that are left.
  unfoldable pub read_entries : ℕ → ℕ → List ℕ → Parsed (List (EmulatorEntry Witness) × List ℕ)
  read_entries zero total bytes = parsed ([], bytes)
  read_entries (suc n) total bytes = read_entry total bytes >>= λ (entry, (total', rest)).
      read_entries n total' rest >>= λ (entries, left). parsed (entry ∷ entries, left)

  abbrev pub whole : List (EmulatorEntry Witness) × List ℕ → Parsed (List (EmulatorEntry Witness))
  whole (entries, []) = new_packet entries
  whole (entries, b ∷ left) = refused trailing_bytes

  abbrev pub counted_entries : Option (ℕ × List ℕ) → Parsed (List (EmulatorEntry Witness))
  counted_entries none = refused read_failed
  counted_entries (some (n, bytes)) =
      if ltb max_entry_count n then refused too_many_entries else (read_entries n 0 bytes >>= whole)

  unfoldable pub deserialize_emulator_packet : List ℕ → Parsed (List (EmulatorEntry Witness))
  deserialize_emulator_packet bytes = counted_entries (wire.read_var_int bytes)
