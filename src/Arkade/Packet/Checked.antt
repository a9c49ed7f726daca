-- ===== src/Arkade/Packet/Checked.antt =====
-- Packets that DeserializeEmulatorPacket of pkg/arkade/emulator_packet.go accepts.
use arkade_2fa_vault_poc.Prelude.{
  ℕ, ◌<◌, ◌≤◌, ◌≡◌, ◌≢◌, refl, ap, false, Option, none, some, List, [], ◌∷◌, length, All, ltb, ◌==◌,
  arith, Bool-cases, inl, inr,
}
use arkade_2fa_vault_poc.Arkade.Packet.{
  Wire, EmulatorEntry, max_entry_count, PacketError, Parsed, refused, parsed, ◌>>=◌, is_seen,
  check_entries, validate, valid_or, new_packet, read_entries, whole, counted_entries,
  deserialize_emulator_packet,
}

module _ {Witness : Type 0} where
  abbrev pub NotAmong : ℕ → List (EmulatorEntry Witness) → Type 0
  NotAmong vin = All (λ (entry : EmulatorEntry Witness). entry.vin ≢ vin)

  abbrev pub Distinct : List (EmulatorEntry Witness) → Type 0
  Distinct [] = Unit
  Distinct (entry ∷ p) = NotAmong entry.vin p × Distinct p

  -- What Validate promises.
  pub record IsPacket (p : List (EmulatorEntry Witness)) : Type 0 where
    pub some_entry : 0 < length p
    pub few : length p ≤ max_entry_count
    pub scripts : All (λ (entry : EmulatorEntry Witness). 0 < length entry.script) p
    pub distinct : Distinct p

  abbrev Unseen : List ℕ → List (EmulatorEntry Witness) → Type 0
  Unseen seen = All (λ (entry : EmulatorEntry Witness). is_seen entry.vin seen ≡ false)

  split-Unseen :
      (vin : ℕ) (seen : List ℕ) (p : List (EmulatorEntry Witness))
      → Unseen (vin ∷ seen) p
      → NotAmong vin p × Unseen seen p
  split-Unseen vin seen [] h = (tt, tt)
  split-Unseen vin seen (entry ∷ p) (first, h) =
      let (others, rest) = split-Unseen vin seen p h in
      ((ground (arith, first), others), (ground (arith, first), rest))

  check_entries-none :
      (seen : List ℕ) (p : List (EmulatorEntry Witness))
      → check_entries seen p ≡ none
      → All (λ (entry : EmulatorEntry Witness). 0 < length entry.script) p
        × (Unseen seen p × Distinct p)
  unfolding check_entries
  check_entries-none seen [] h = (tt, (tt, tt))
  check_entries-none seen (entry ∷ p) h = elim (Bool-cases (length entry.script == 0)) [
    | inl e ↦ cc (rw e at h)
    | inr some_byte ↦ elim (Bool-cases (is_seen entry.vin seen)) [
      | inl e ↦ cc (rw (some_byte, e) at h)
      | inr fresh ↦
          let (scripts, (unseen, distinct)) =
            check_entries-none (entry.vin ∷ seen) p (rw (some_byte, fresh) at h) in
          let (others, rest) = split-Unseen entry.vin seen p unseen in
          ((ground (arith, some_byte), scripts), ((fresh, rest), (others, distinct)))
    ]
  ]

  pub validate-none : (p : List (EmulatorEntry Witness)) → validate p ≡ none → IsPacket p
  unfolding validate
  validate-none p h = elim (Bool-cases (length p == 0)) [
    | inl e ↦ cc (rw e at h)
    | inr some_entry ↦ elim (Bool-cases (ltb max_entry_count (length p))) [
      | inl e ↦ cc (rw (some_entry, e) at h)
      | inr few ↦
          let (scripts, (_, distinct)) = check_entries-none [] p (rw (some_entry, few) at h) in
          record {
            some_entry = ground (arith, some_entry);
            few = ground (arith, few);
            scripts = scripts;
            distinct = distinct;
          }
    ]
  ]

  valid_or-parsed :
      (o : Option PacketError) (entries p : List (EmulatorEntry Witness))
      → valid_or o entries ≡ parsed p
      → (o ≡ none) × (valid_or none entries ≡ parsed p)
  valid_or-parsed none entries p h = (refl, h)
  valid_or-parsed (some e) entries p h = cc h

  abbrev entries_or :
      Parsed (List (EmulatorEntry Witness))
      → List (EmulatorEntry Witness)
      → List (EmulatorEntry Witness)
  entries_or (refused e) p = p
  entries_or (parsed entries) p = entries

  new_packet-parsed :
      (entries p : List (EmulatorEntry Witness)) → new_packet entries ≡ parsed p → IsPacket p
  unfolding new_packet
  new_packet-parsed entries p h =
      let (passed, same) = valid_or-parsed (validate entries) entries p h in
      let equal : entries ≡ p =
        ap (λ (r : Parsed (List (EmulatorEntry Witness))). entries_or r entries) same in
      rw equal at (validate-none entries passed)

-- Whatever the bytes are, and however the wire and witness formats behave, a packet that
-- DeserializeEmulatorPacket returns has from 1 to 1000 entries, no empty script, and no input index twice.
pub deserialize-IsPacket :
    {Witness : Type 0} (wire : Wire Witness) (bytes : List ℕ) (p : List (EmulatorEntry Witness))
    → deserialize_emulator_packet wire bytes ≡ parsed p
    → IsPacket p
unfolding deserialize_emulator_packet
deserialize-IsPacket {Witness} wire bytes p h = counted (wire.read_var_int bytes) h
  where
    ended :
        (r : Parsed (List (EmulatorEntry Witness) × List ℕ))
        → (r >>= whole wire) ≡ parsed p
        → IsPacket p
    ended (refused e) h = cc h
    ended (parsed (entries, [])) h = new_packet-parsed entries p h
    ended (parsed (entries, b ∷ left)) h = cc h

    counted : (o : Option (ℕ × List ℕ)) → counted_entries wire o ≡ parsed p → IsPacket p
    counted none h = cc h
    counted (some (n, rest)) h = elim (Bool-cases (ltb max_entry_count n)) [
      | inl e ↦ cc (rw e at h)
      | inr few ↦ ended (read_entries wire n 0 rest) (rw few at h)
    ]
