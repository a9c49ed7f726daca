-- ===== src/Arkade/Vm/Ready.antt =====
-- The bytes that Step of pkg/arkade/engine.go has still to read when it enters a script.
use arkade_2fa_vault_poc.Prelude.{
  ℕ, zero, suc, ◌+◌, ◌-◌, ◌^◌, ◌<◌, ◌≤◌, ◌≡◌, inl, inr, refl, ap, ◌∙◌, Bool, true, false, ◌&&◌,
  Option, none, some, List, [], ◌∷◌, ◌++◌, length, get_elem?, drop, arith, leb, ◌==◌, if_cases,
  if◌then◌else◌, All,
}
use native.Mathlib.Numerals.{add-one}
use arkade_2fa_vault_poc.Prelude.Int.{ℤ, pos_part, negsuc}
use arkade_2fa_vault_poc.Arkade.Result.{Result}
use arkade_2fa_vault_poc.Arkade.Ensures.{Ensures, Ensures-mono}
use arkade_2fa_vault_poc.Arkade.Stack.{Item}
use arkade_2fa_vault_poc.Arkade.Tokenizer.{make_script_tokenizer}
use arkade_2fa_vault_poc.Arkade.Tokenizer.Tokens.{tokenizer_at}
use arkade_2fa_vault_poc.Arkade.Machine.Opcodes.{Handler}
use arkade_2fa_vault_poc.Arkade.Machine.Execute.{item_bytes}
use arkade_2fa_vault_poc.Arkade.Vm.{Btcd, Vm}
use arkade_2fa_vault_poc.Arkade.Vm.Witness.{verify_witness_program}
use arkade_2fa_vault_poc.Arkade.Vm.Steps.{
  has_program, is_empty_script, skip_empty, start_script, enter_script, advance_script,
}
use arkade_2fa_vault_poc.Arkade.Vm.Grown.{IsGrown, verify_witness_program-Grows}

-- Script lengths fit an int32.
abbrev pub AreShort : List (List ℕ) → Type 0
AreShort = All (λ (script : List ℕ). length script < 2 ^ 31)

bytes_at :
    (scripts : List (List ℕ)) (i : ℕ) (script : List ℕ)
    → get_elem? scripts i ≡ some script
    → length script + item_bytes (drop (suc i) scripts) ≡ item_bytes (drop i scripts)
unfolding item_bytes
bytes_at [] i script e = cc
bytes_at (s ∷ scripts) zero script e = ground (arith, e)
bytes_at (s ∷ scripts) (suc i) script e = bytes_at scripts i script e

bytes_after :
    (scripts : List (List ℕ)) (i : ℕ)
    → item_bytes (drop (suc i) scripts) ≤ item_bytes (drop i scripts)
unfolding item_bytes
bytes_after [] zero = omega arith
bytes_after [] (suc i) = omega arith
bytes_after (s ∷ scripts) zero = omega arith
bytes_after (s ∷ scripts) (suc i) = bytes_after scripts i

bytes_appended :
    (scripts : List (List ℕ)) (script : List ℕ) (i : ℕ)
    → item_bytes (drop i (scripts ++ script ∷ [])) ≤ item_bytes (drop i scripts) + length script
unfolding item_bytes
bytes_appended [] script zero = omega arith
bytes_appended [] script (suc zero) = omega arith
bytes_appended [] script (suc (suc i)) = omega arith
bytes_appended (s ∷ scripts) script zero = omega (arith, bytes_appended scripts script zero)
bytes_appended (s ∷ scripts) script (suc i) = bytes_appended scripts script i

AreShort-append :
    (scripts : List (List ℕ)) (script : List ℕ)
    → AreShort scripts
    → length script < 2 ^ 31
    → AreShort (scripts ++ script ∷ [])
AreShort-append [] script h small = (small, tt)
AreShort-append (s ∷ scripts) script (here, h) small =
    (here, AreShort-append scripts script h small)

AreShort-at :
    (scripts : List (List ℕ)) (i : ℕ) (script : List ℕ)
    → AreShort scripts
    → get_elem? scripts i ≡ some script
    → length script < 2 ^ 31
AreShort-at [] i script h e = cc
AreShort-at (s ∷ scripts) zero script (here, h) e = ground (arith, here, e)
AreShort-at (s ∷ scripts) (suc i) script (here, h) e = AreShort-at scripts i script h e

module _ (btcd : Btcd) (opfunc : ℕ → List ℕ → Handler) (witness : List Item)
    (small : item_bytes witness < 2 ^ 31) where
  -- The bytes that the witness may still bring in.
  abbrev pub pending : ℕ → ℕ
  pending script_idx = if leb script_idx 1 then item_bytes witness else 0

  -- The bytes of the scripts from `i` on.
  abbrev pub later : ℕ → List (List ℕ) → ℕ
  later i scripts = item_bytes (drop i scripts) + pending i

  abbrev pub measure : Vm → ℕ
  measure vm =
      (length vm.tokenizer.script - pos_part vm.tokenizer.offset)
      + (item_bytes (drop (suc vm.script_idx) vm.scripts) + pending vm.script_idx)

  -- The tokenizer has met no error and stands inside a script of version 0.
  pub record IsRunning (vm : Vm) : Type 0 where
    pub script : List ℕ
    pub i : ℕ
    pub count : ℤ
    pub op : Option ℕ
    pub bytes : List ℕ
    pub at : vm.tokenizer ≡ tokenizer_at 0 script i count op bytes
    pub inside : i ≤ length script
    pub short : length script < 2 ^ 31
    pub shorts : AreShort vm.scripts
    pub zero_version : vm.version ≡ 0

  -- Ready to enter the script at the index, with at most `bound` bytes to read.
  pub record IsReady (bound : ℕ) (vm : Vm) : Type 0 where
    pub shorts : AreShort vm.scripts
    pub zero_version : vm.version ≡ 0
    pub fits : later vm.script_idx vm.scripts ≤ bound

  abbrev pub Continues : ℕ → Bool → Vm → Type 0
  Continues bound true vm = Unit
  Continues bound false vm = IsRunning vm × (measure vm ≤ bound)

  pub IsRunning-same :
      (vm v : Vm)
      → v.tokenizer ≡ vm.tokenizer
      → v.scripts ≡ vm.scripts
      → v.version ≡ vm.version
      → IsRunning vm
      → IsRunning v
  IsRunning-same vm v t s n h = record {
    script = h.script;
    i = h.i;
    count = h.count;
    op = h.op;
    bytes = h.bytes;
    at = t ∙ h.at;
    inside = h.inside;
    short = h.short;
    shorts = rw s h.shorts;
    zero_version = n ∙ h.zero_version;
  }

  pending_after : (i : ℕ) → pending (suc i) ≤ pending i
  pending_after i = ground arith

  pub advance-IsReady :
      (vm : Vm)
      → AreShort vm.scripts
      → vm.version ≡ 0
      → Ensures
          (λ (u : Unit {0}).
            IsReady (item_bytes (drop (suc vm.script_idx) vm.scripts) + pending vm.script_idx))
          (advance_script btcd opfunc witness vm)
  unfolding advance_script
  advance-IsReady vm shorts zero_version =
      if_cases ready (vm.script_idx == 1 && has_program vm.program)
        (λ at_program.
          Ensures-mono (λ (u : Unit {0}). IsGrown (item_bytes witness) vm')
            (λ (u : Unit {0}). IsReady bound) (verify_witness_program btcd witness vm.program vm')
            (λ u v h. record {
              shorts = grown_shorts v h;
              zero_version = h.numbered ∙ zero_version;
              fits = grown_fits (ground (arith, at_program)) v h;
            })
            (verify_witness_program-Grows btcd witness vm.program vm'))
        (λ _. record {
          shorts = shorts;
          zero_version = zero_version;
          fits = rw one (omega (arith, pending_after vm.script_idx));
        })
    where
      bound : ℕ
      bound = item_bytes (drop (suc vm.script_idx) vm.scripts) + pending vm.script_idx

      ready : Result (Unit {0}) × Vm → Type 0
      ready = Ensures (λ (u : Unit {0}). IsReady bound)

      vm' : Vm
      vm' = record vm { script_idx = vm.script_idx + 1 }

      one : vm.script_idx + 1 ≡ suc vm.script_idx
      one = omega arith

      grown_shorts : (v : Vm) → IsGrown (item_bytes witness) vm' v → AreShort v.scripts
      grown_shorts v h = elim h.scripts [
        | inl same ↦ rw same shorts
        | inr (script, more, fits) ↦
            rw more (AreShort-append vm.scripts script shorts (omega (arith, fits, small)))
      ]

      grown_fits :
          vm.script_idx ≡ 1
          → (v : Vm) → IsGrown (item_bytes witness) vm' v
          → later v.script_idx v.scripts ≤ bound
      grown_fits at v h =
          let second : v.script_idx ≡ 2 = omega (arith, h.place, at) in
          let moved : later v.script_idx v.scripts ≡ later 2 v.scripts =
            ap (λ (k : ℕ). later k v.scripts) second in
          let before : bound ≡ item_bytes (drop 2 vm.scripts) + item_bytes witness =
            ap (λ (k : ℕ). item_bytes (drop (suc k) vm.scripts) + pending k) at in
          elim h.scripts [
            | inl same ↦ omega (arith, moved, before, ap (λ (l : List (List ℕ)). later 2 l) same)
            | inr (script, more, fits) ↦ omega (
              arith,
              moved,
              before,
              fits,
              ap (λ (l : List (List ℕ)). later 2 l) more,
              bytes_appended vm.scripts script 2,
            )
          ]

  start-Continues :
      (bound : ℕ) (vm : Vm)
      → IsReady bound vm
      → Ensures (Continues bound) (start_script (get_elem? vm.scripts vm.script_idx) vm)
  start-Continues bound vm h = go (get_elem? vm.scripts vm.script_idx) refl
    where
      go :
          (o : Option (List ℕ))
          → get_elem? vm.scripts vm.script_idx ≡ o
          → Ensures (Continues bound) (start_script o vm)
      go none e = tt
      go (some script) e = (
        record {
          script = script;
          i = 0;
          count = negsuc 0;
          op = none;
          bytes = [];
          at = ap (λ (n : ℕ). make_script_tokenizer n script) h.zero_version;
          inside = omega arith;
          short = AreShort-at vm.scripts vm.script_idx script h.shorts e;
          shorts = h.shorts;
          zero_version = h.zero_version;
        },
        omega (arith, h.fits, bytes_at vm.scripts vm.script_idx script e),
      )

  pub enter-Continues :
      (bound : ℕ) (vm : Vm) → IsReady bound vm → Ensures (Continues bound) (enter_script vm)
  unfolding enter_script
  enter-Continues bound vm h = start-Continues bound (skip_empty vm) (
      if_cases (λ (v : Vm). IsReady bound v) (is_empty_script (get_elem? vm.scripts vm.script_idx))
        (λ _. record {
          shorts = h.shorts;
          zero_version = h.zero_version;
          fits = rw (add-one vm.script_idx) (
              omega
                (arith, h.fits, bytes_after vm.scripts vm.script_idx, pending_after vm.script_idx));
        })
        (λ _. h))
