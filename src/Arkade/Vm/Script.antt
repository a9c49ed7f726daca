-- ===== src/Arkade/Vm/Script.antt =====
-- ArkadeScript.Execute and its options, pkg/arkade/script.go and compute_limits.go.
use arkade_2fa_vault_poc.Prelude.{
  ℕ, Bool, true, false, not, ◌&&◌, ◌||◌, Option, none, some, List, [], ◌∷◌, ◌++◌, length, get_elem?,
  ◌==◌, if◌then◌else◌,
}
use arkade_2fa_vault_poc.Prelude.Int.{ℤ, pos, pos_part, ltb_ℤ, eq_ℤ}
use arkade_2fa_vault_poc.Prelude.Bytes.{bytes_eq}
use arkade_2fa_vault_poc.Arkade.Result.{Result, ok, err, ErrorCode}
use arkade_2fa_vault_poc.Arkade.Stack.{Item}
use arkade_2fa_vault_poc.Arkade.ComputeLimits.{
  ComputeLimits, ComputeBudget, Meter, default_compute_limits, no_counts,
}
use arkade_2fa_vault_poc.Arkade.Machine.Opcodes.{Handler}
use arkade_2fa_vault_poc.Arkade.Packet.{Wire, EmulatorEntry, PacketError, Parsed, parsed, refused}
use arkade_2fa_vault_poc.Arkade.Packet.Find.{
  Extension, not_found, bad_extension, found, find_emulator_packet,
}
use arkade_2fa_vault_poc.Arkade.Vm.{Btcd, Vm, set_stack}
use arkade_2fa_vault_poc.Arkade.Vm.Create.{TxIn, new_engine}
use arkade_2fa_vault_poc.Arkade.Vm.Steps.{execute}

pub record ArkadeScript : Type 0 where
  pub script : List ℕ
  pub witness : List Item
  pub packet_bound : Bool
  pub packet_vin : ℕ

-- The transaction, with the extension of its outputs.
pub record SpendingTx : Type 0 where
  pub inputs : List TxIn
  pub extension : Extension

-- A nil table is none.
pub data ExecuteOption : Type 0 where
  with_compute_limits with_exact_compute_limits : Option ComputeLimits → ExecuteOption
  with_compute_budget : Option ComputeBudget → ExecuteOption

unfoldable pub apply_option : ExecuteOption → Meter → Meter
apply_option (with_compute_limits none) m = m
apply_option (with_compute_limits (some c)) m = record m { limits = c ++ default_compute_limits }
apply_option (with_exact_compute_limits none) m = m
apply_option (with_exact_compute_limits (some c)) m = record m { limits = c }
apply_option (with_compute_budget b) m = record m { budget = b }

abbrev pub apply_options : List ExecuteOption → Meter → Meter
apply_options [] m = m
apply_options (o ∷ options) m = apply_options options (apply_option o m)

pub data ScriptError : Type 0 where
  transaction_required index_out_of_range fetcher_required no_prevout : ScriptError
  prevout_out_of_range extension_failed packet_mismatch : ScriptError
  engine_failed : ErrorCode → ScriptError
  packet_failed : PacketError → ScriptError

-- The script is refused, or the engine has run.
pub data Outcome : Type 0 where
  rejected : ScriptError → Outcome
  ran : Result (Unit {0}) × Vm → Outcome

abbrev pub same_witness : List Item → List Item → Bool
same_witness [] [] = true
same_witness [] (so ∷ items) = false
same_witness (so ∷ items) [] = false
same_witness (so ∷ items) (so' ∷ items') = bytes_eq so so' && same_witness items items'

unfoldable pub packet_contains_exact_entry :
    List (EmulatorEntry (List Item)) → ℕ → List ℕ → List Item → Bool
packet_contains_exact_entry [] vin script witness = false
packet_contains_exact_entry (entry ∷ packet) vin script witness =
    ((entry.vin == vin) && (bytes_eq entry.script script && same_witness entry.witness witness))
    || packet_contains_exact_entry packet vin script witness

-- A nil packet has no entries.
abbrev pub entries : Option (List (EmulatorEntry (List Item))) → List (EmulatorEntry (List Item))
entries none = []
entries (some packet) = packet

abbrev pub with_witness : List Item → Vm → Vm
with_witness witness vm =
    if length witness == 0
    then vm
    else record vm { engine = record vm.engine { dstack = set_stack witness vm.engine.dstack } }

abbrev pub is_bad : Extension → Bool
is_bad not_found = false
is_bad bad_extension = true
is_bad (found ext) = false

abbrev pub or_rejected : Option ScriptError → Option Outcome → Option Outcome
or_rejected none o = o
or_rejected (some e) o = some (rejected e)

-- newTaprootExecutionCtxForLeaf, then the options.
abbrev pub configure : List ExecuteOption → Vm → Vm
configure options vm =
    let meter = record vm.engine.meter { in_taproot = true; op_counts = no_counts } in
    record vm {
      engine = record vm.engine { meter = apply_options options meter };
      must_succeed = false;
    }

-- `max_satoshi` is btcutil.MaxSatoshi.
module _ (btcd : Btcd) (wire : Wire (List Item)) (max_satoshi : ℕ)
    (opfunc : ℕ → List ℕ → Handler) where
  -- What the loop says of one previous output.
  abbrev pub check_prevout : Option ℤ → Option ScriptError
  check_prevout none = some no_prevout
  check_prevout (some value) =
      if ltb_ℤ value (pos 0) || ltb_ℤ (pos max_satoshi) value
      then some prevout_out_of_range
      else none

  unfoldable pub check_prevouts : List TxIn → Option ScriptError
  check_prevouts [] = none
  check_prevouts (input ∷ inputs) =
      let rest = check_prevouts inputs in
      elim (check_prevout input.prevout) [ none ↦ rest | some e ↦ some e ]

  abbrev pub witness_of : Option TxIn → List Item
  witness_of none = []
  witness_of (some input) = input.witness

  abbrev pub is_unbound : ArkadeScript → ℤ → Option (List (EmulatorEntry (List Item))) → Bool
  is_unbound s input_index packet =
      s.packet_bound
      && (not (eq_ℤ (pos s.packet_vin) input_index)
          || not (packet_contains_exact_entry (entries packet) s.packet_vin s.script s.witness))

  abbrev pub ended : Option (Result (Unit {0}) × Vm) → Option Outcome
  ended none = none
  ended (some out) = some (ran out)

  abbrev pub run_bound :
      ℕ
      → ArkadeScript
      → ℤ
      → List Item
      → Vm
      → Parsed (Option (List (EmulatorEntry (List Item))))
      → Option Outcome
  run_bound fuel s input_index witness vm (refused e) = some (rejected (packet_failed e))
  run_bound fuel s input_index witness vm (parsed packet) =
      if is_unbound s input_index packet
      then some (rejected packet_mismatch)
      else ended (execute btcd opfunc witness fuel (with_witness s.witness vm))

  abbrev pub run_engine :
      ℕ → ArkadeScript → SpendingTx → ℤ → List ExecuteOption → Result Vm → Option Outcome
  run_engine fuel s tx input_index options (err e) = some (rejected (engine_failed e))
  run_engine fuel s tx input_index options (ok vm) =
      if is_bad tx.extension
      then some (rejected extension_failed)
      else run_bound fuel s input_index (witness_of (get_elem? tx.inputs (pos_part input_index)))
          (configure options vm) (find_emulator_packet wire (length tx.inputs) tx.extension)

  -- `has_fetcher` is whether the prevout fetcher is not nil.
  unfoldable pub execute_script :
      ℕ → ArkadeScript → Option SpendingTx → Bool → ℤ → List ExecuteOption → Option Outcome
  execute_script fuel s none has_fetcher input_index options = some (rejected transaction_required)
  execute_script fuel s (some tx) has_fetcher input_index options =
      if ltb_ℤ input_index (pos 0) || not (ltb_ℤ input_index (pos (length tx.inputs)))
      then some (rejected index_out_of_range)
      else if not has_fetcher
      then some (rejected fetcher_required)
      else or_rejected (check_prevouts tx.inputs) (
          run_engine fuel s tx input_index options (new_engine btcd s.script tx.inputs input_index))
