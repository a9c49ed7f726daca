-- ===== src/Arkade/Vm/Bound.antt =====
-- A script of pkg/arkade/script.go that is bound to a packet runs only with that packet.
use arkade_2fa_vault_poc.Prelude.{
  ℕ, suc, ◌<◌, ◌≤◌, ◌≡◌, refl, Bool, true, false, not, ◌&&◌, ◌||◌, Option, none, some, List, [],
  ◌∷◌, length, get_elem?, All, arith, ◌==◌, if_cases, Bool-cases, and_true, inl, inr,
}
use arkade_2fa_vault_poc.Prelude.Int.{ℤ, pos, negsuc, pos_part, ltb_ℤ, eq_ℤ}
use arkade_2fa_vault_poc.Prelude.Bytes.{bytes_eq, bytes_eq_iff}
use arkade_2fa_vault_poc.Arkade.Result.{Result, ok, err}
use arkade_2fa_vault_poc.Arkade.Stack.{Item}
use arkade_2fa_vault_poc.Arkade.Packet.{Wire, EmulatorEntry, Parsed, parsed, refused}
use arkade_2fa_vault_poc.Arkade.Packet.Find.{find_emulator_packet}
use arkade_2fa_vault_poc.Arkade.Packet.Found.{IsFound, find_emulator_packet-IsFound}
use arkade_2fa_vault_poc.Arkade.Machine.Opcodes.{Handler}
use arkade_2fa_vault_poc.Arkade.Vm.{Btcd, Vm}
use arkade_2fa_vault_poc.Arkade.Vm.Steps.{execute}
use arkade_2fa_vault_poc.Arkade.Vm.Create.{TxIn, new_engine}
use arkade_2fa_vault_poc.Arkade.Vm.Script.{
  ArkadeScript, SpendingTx, ExecuteOption, Outcome, rejected, ran, ScriptError, same_witness,
  packet_contains_exact_entry, check_prevout, check_prevouts, witness_of, is_unbound, with_witness,
  configure, is_bad, or_rejected, ended, run_bound, run_engine, execute_script,
}

same_witness-eq : (w w' : List Item) → same_witness w w' ≡ true → w ≡ w'
same_witness-eq [] [] h = refl
same_witness-eq [] (x ∷ w') h = cc
same_witness-eq (x ∷ w) [] h = cc
same_witness-eq (x ∷ w) (y ∷ w') h =
    let (first, rest) = and_true (bytes_eq x y) (same_witness w w') h in
    let item : x ≡ y = (bytes_eq_iff x y).0 first in let items = same_witness-eq w w' rest in cc

contains-get :
    (packet : List (EmulatorEntry (List Item))) (vin : ℕ) (script : List ℕ) (witness : List Item)
    → packet_contains_exact_entry packet vin script witness ≡ true
    → (k : ℕ) × (get_elem? packet k
        ≡ some (record { vin = vin; script = script; witness = witness }))
unfolding packet_contains_exact_entry
contains-get [] vin script witness h = cc
contains-get (entry ∷ packet) vin script witness h =
    elim (Bool-cases (
      (entry.vin == vin) && (bytes_eq entry.script script && same_witness entry.witness witness))) [
        | inl here ↦
            let (number, rest) =
              and_true (entry.vin == vin)
                (bytes_eq entry.script script && same_witness entry.witness witness) here in
            let (body, items) =
              and_true (bytes_eq entry.script script) (same_witness entry.witness witness) rest in
            let same_vin : entry.vin ≡ vin = ground (arith, number) in
            let same_script : entry.script ≡ script = (bytes_eq_iff entry.script script).0 body in
            let same_items = same_witness-eq entry.witness witness items in
            (0, cc (same_vin, same_script, same_items))
        | inr other ↦
            let (k, at) = contains-get packet vin script witness (rw other at h) in (suc k, at)
      ]

agreed_lem :
    (bound same listed : Bool)
    → bound ≡ true
    → (bound && (not same || not listed)) ≡ false
    → (same ≡ true) × (listed ≡ true)
agreed_lem true true true b h = (refl, refl)
agreed_lem true true false b h = cc
agreed_lem true false listed b h = cc
agreed_lem false same listed b h = cc

-- What a run of a bound script relies on.
pub record IsBound (wire : Wire (List Item)) (max_satoshi : ℕ) (s : ArkadeScript) (tx : SpendingTx)
    (input_index : ℤ) : Type 0 where
  pub index : input_index ≡ pos s.packet_vin
  pub inside : s.packet_vin < length tx.inputs
  pub amounts :
      All (λ (input : TxIn). (v : ℕ) × (input.prevout ≡ some (pos v)) × (v ≤ max_satoshi)) tx.inputs
  pub packet : List (EmulatorEntry (List Item))
  pub published : find_emulator_packet wire (length tx.inputs) tx.extension ≡ parsed (some packet)
  pub valid : IsFound wire (length tx.inputs) packet
  pub place : ℕ
  pub entry :
      get_elem? packet place
      ≡ some (record { vin = s.packet_vin; script = s.script; witness = s.witness })

module _ (btcd : Btcd) (wire : Wire (List Item)) (max_satoshi : ℕ)
    (opfunc : ℕ → List ℕ → Handler) where
  abbrev IsAmount : TxIn → Type 0
  IsAmount input = (v : ℕ) × (input.prevout ≡ some (pos v)) × (v ≤ max_satoshi)

  check_prevout-IsAmount :
      (input : TxIn)
      → check_prevout btcd wire max_satoshi opfunc input.prevout ≡ none
      → IsAmount input
  check_prevout-IsAmount input h = go input.prevout h
    where
      go :
          (o : Option ℤ)
          → check_prevout btcd wire max_satoshi opfunc o ≡ none
          → (v : ℕ) × (o ≡ some (pos v)) × (v ≤ max_satoshi)
      go none h = cc
      go (some (pos v)) h = (v, refl, ground (arith, h))
      go (some (negsuc v)) h = ground (arith, h)

  check_prevouts-IsAmount :
      (inputs : List TxIn)
      → check_prevouts btcd wire max_satoshi opfunc inputs ≡ none
      → All IsAmount inputs
  unfolding check_prevouts
  check_prevouts-IsAmount [] h = tt
  check_prevouts-IsAmount (input ∷ inputs) h =
      go (check_prevout btcd wire max_satoshi opfunc input.prevout) refl h
        (check_prevouts-IsAmount inputs)
    where
      go :
          (o : Option ScriptError)
          → check_prevout btcd wire max_satoshi opfunc input.prevout ≡ o
          → elim o as (λ _. Option ScriptError) [
            | none ↦ check_prevouts btcd wire max_satoshi opfunc inputs
            | some e ↦ some e
          ]
            ≡ none
          → (check_prevouts btcd wire max_satoshi opfunc inputs ≡ none → All IsAmount inputs)
          → All IsAmount (input ∷ inputs)
      go none e h again = (check_prevout-IsAmount input e, again h)
      go (some x) e h again = cc

  -- Whatever runs satisfies `P`.
  abbrev OnlyRuns : Type 0 → Option Outcome → Type 0
  OnlyRuns P none = Unit
  OnlyRuns P (some (rejected e)) = Unit
  OnlyRuns P (some (ran out)) = P

  ended-OnlyRuns :
      (P : Type 0) (o : Option (Result (Unit {0}) × Vm))
      → P
      → OnlyRuns P (ended btcd wire max_satoshi opfunc o)
  ended-OnlyRuns P none h = tt
  ended-OnlyRuns P (some out) h = h

  module _ (fuel : ℕ) (s : ArkadeScript) (tx : SpendingTx) (input_index : ℤ)
      (options : List ExecuteOption) (bound : s.packet_bound ≡ true) where
    abbrev Bound : Type 0
    Bound = IsBound wire max_satoshi s tx input_index

    packet-IsBound :
        (p : Option (List (EmulatorEntry (List Item))))
        → ltb_ℤ input_index (pos (length tx.inputs)) ≡ true
        → All IsAmount tx.inputs
        → find_emulator_packet wire (length tx.inputs) tx.extension ≡ parsed p
        → is_unbound btcd wire max_satoshi opfunc s input_index p ≡ false
        → Bound
    packet-IsBound none inside amounts published agreed =
        let (same, listed) =
          agreed_lem s.packet_bound (eq_ℤ (pos s.packet_vin) input_index)
            (packet_contains_exact_entry [] s.packet_vin s.script s.witness) bound agreed in
        unfold packet_contains_exact_entry in cc listed
    packet-IsBound (some packet) inside amounts published agreed =
        let (same, listed) =
          agreed_lem s.packet_bound (eq_ℤ (pos s.packet_vin) input_index)
            (packet_contains_exact_entry packet s.packet_vin s.script s.witness) bound agreed in
        let (place, entry) = contains-get packet s.packet_vin s.script s.witness listed in
        let index : input_index ≡ pos s.packet_vin = ground (arith, same) in
        let within : ltb_ℤ (pos s.packet_vin) (pos (length tx.inputs)) ≡ true =
          rw index at inside in
        record {
          index = index;
          inside = ground (arith, within);
          amounts = amounts;
          packet = packet;
          published = published;
          valid =
              find_emulator_packet-IsFound wire (length tx.inputs) tx.extension packet published;
          place = place;
          entry = entry;
        }

    bound-OnlyRuns :
        (vm : Vm) (r : Parsed (Option (List (EmulatorEntry (List Item)))))
        → ltb_ℤ input_index (pos (length tx.inputs)) ≡ true
        → All IsAmount tx.inputs
        → find_emulator_packet wire (length tx.inputs) tx.extension ≡ r
        → OnlyRuns Bound (
            run_bound btcd wire max_satoshi opfunc fuel s input_index
              (witness_of btcd wire max_satoshi opfunc (get_elem? tx.inputs (pos_part input_index)))
              vm
              r)
    bound-OnlyRuns vm (refused e) inside amounts published = tt
    bound-OnlyRuns vm (parsed p) inside amounts published =
        if_cases (OnlyRuns Bound) (is_unbound btcd wire max_satoshi opfunc s input_index p)
          (λ _. tt)
          (λ agreed.
            ended-OnlyRuns Bound
              (execute btcd opfunc
                (witness_of btcd wire max_satoshi opfunc
                  (get_elem? tx.inputs (pos_part input_index)))
                fuel (with_witness s.witness vm))
              (packet-IsBound p inside amounts published agreed))

    engine-OnlyRuns :
        (r : Result Vm)
        → ltb_ℤ input_index (pos (length tx.inputs)) ≡ true
        → All IsAmount tx.inputs
        → OnlyRuns Bound (run_engine btcd wire max_satoshi opfunc fuel s tx input_index options r)
    engine-OnlyRuns (err e) inside amounts = tt
    engine-OnlyRuns (ok vm) inside amounts =
        if_cases (OnlyRuns Bound) (is_bad tx.extension) (λ _. tt)
          (λ _.
            bound-OnlyRuns (configure options vm)
              (find_emulator_packet wire (length tx.inputs) tx.extension) inside amounts refl)

    script-OnlyRuns :
        (has_fetcher : Bool)
        → OnlyRuns Bound (
            execute_script btcd wire max_satoshi opfunc fuel s
              (some tx)
              has_fetcher
              input_index
              options)
    unfolding execute_script
    script-OnlyRuns has_fetcher =
        if_cases (OnlyRuns Bound)
          (ltb_ℤ input_index (pos 0) || not (ltb_ℤ input_index (pos (length tx.inputs)))) (λ _. tt)
          (λ inside.
            if_cases (OnlyRuns Bound) (not has_fetcher) (λ _. tt)
              (λ _. go (check_prevouts btcd wire max_satoshi opfunc tx.inputs) refl inside))
      where
        go :
            (o : Option ScriptError)
            → check_prevouts btcd wire max_satoshi opfunc tx.inputs ≡ o
            → (ltb_ℤ input_index (pos 0) || not (ltb_ℤ input_index (pos (length tx.inputs))))
              ≡ false
            → OnlyRuns Bound (
                or_rejected o (
                  run_engine btcd wire max_satoshi opfunc fuel s tx input_index options
                    (new_engine btcd s.script tx.inputs input_index)))
        go (some e) h inside = tt
        go none h inside =
            engine-OnlyRuns (new_engine btcd s.script tx.inputs input_index)
              (ground (arith, inside)) (check_prevouts-IsAmount tx.inputs h)

-- The engine runs a script that is bound to a packet entry only where the input index is that of the entry, the
-- packet that FindEmulatorPacket reads from the transaction is valid, with every entry indexing an input, and
-- holds exactly that entry, with the same script and witness, and every input has a known previous output
-- whose value is from 0 to MaxSatoshi.
pub execute_script-IsBound :
    (btcd : Btcd) (wire : Wire (List Item)) (max_satoshi : ℕ) (opfunc : ℕ → List ℕ → Handler)
    (fuel : ℕ) (s : ArkadeScript) (tx : SpendingTx) (has_fetcher : Bool) (input_index : ℤ)
    (options : List ExecuteOption) (out : Result (Unit {0}) × Vm)
    → s.packet_bound ≡ true
    → execute_script btcd wire max_satoshi opfunc fuel s (some tx) has_fetcher input_index options
      ≡ some (ran out)
    → IsBound wire max_satoshi s tx input_index
execute_script-IsBound btcd wire max_satoshi opfunc fuel s tx has_fetcher input_index options out
      bound h =
    rw h at
      (script-OnlyRuns btcd wire max_satoshi opfunc fuel s tx input_index options bound has_fetcher)
