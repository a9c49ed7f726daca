-- ===== src/Arkade/Tokenizer/Progress.antt =====
-- Next of pkg/arkade/tokenizer.go moves forward and stays inside the script, so that loops over it end.
use arkade_2fa_vault_poc.Prelude.{
  ℕ, zero, suc, ◌+◌, ◌-◌, ◌^◌, ◌<◌, ◌≤◌, ◌≡◌, refl, true, false, ◌||◌, Option, none, some, List, [],
  ◌∷◌, length, length-drop, take, drop, ltb, ◌==◌, arith, if◌then◌else◌, if_cases,
}
use arkade_2fa_vault_poc.Prelude.Int.{
  ℤ, pos, negsuc, ◌+ℤ◌, int32, int32-add, int32-eq_of_IsInt32, ltb_ℤ,
}
use arkade_2fa_vault_poc.Arkade.Result.{ErrorCode, malformed_push, index_panic}
use arkade_2fa_vault_poc.Arkade.Tokenizer.{
  ScriptTokenizer, Step, op_length, done, stop, advance, data_len, next_data, next_at, next_op,
  next, make_script_tokenizer, opcode, tokenize,
}
use arkade_2fa_vault_poc.Arkade.Tokenizer.Tokens.{tokenizer_at}

-- What Next does at a position: it moves forward inside the script, or the tokenizer is done.
pub data Moved (version : ℕ) (script : List ℕ) (i : ℕ) : Step → Type 0 where
  forward :
      (j : ℕ) (count : ℤ) (op : Option ℕ) (bytes : List ℕ)
      → i < j
      → j ≤ length script
      → Moved version script i (true, tokenizer_at version script j count op bytes)
  stopped : (t : ScriptTokenizer) → done t ≡ true → Moved version script i (false, t)

module _ (version : ℕ) (script : List ℕ) (i : ℕ) (count : ℤ) (old : Option ℕ) (before : List ℕ)
    (short : length script < 2 ^ 31) where
  abbrev here : ScriptTokenizer
  here = tokenizer_at version script i count old before

  fails : (e : ErrorCode) → Moved version script i (stop e here)
  fails e = stopped (record here { failure = some e }) (unfold done in refl)

  goes :
      (op n : ℕ) (bytes : List ℕ) (z : ℤ)
      → z ≡ pos (i + n)
      → 0 < n
      → i + n ≤ length script
      → Moved version script i (advance op z bytes here)
  goes op n bytes z e some_byte fits =
      rw e (forward (i + n) count (some op) bytes (omega (arith, some_byte)) fits)

  next_data-Moved :
      (op width : ℕ) (o : Option ℤ) (rest : List ℕ)
      → i + (1 + width + length rest) ≤ length script
      → Moved version script i (next_data op width o rest here)
  unfolding next_data
  next_data-Moved op width none rest fits = fails malformed_push
  next_data-Moved op width (some (negsuc k)) rest fits =
      if_cases (Moved version script i)
        (ltb_ℤ (int32 (pos (length rest))) (negsuc k) || ltb_ℤ (negsuc k) (pos 0))
        (λ _. fails malformed_push) (λ bad. absurd (ground (arith, bad)))
  next_data-Moved op width (some (pos n)) rest fits =
      let total : int32 (pos (length rest)) ≡ pos (length rest) =
        int32-eq_of_IsInt32 (pos (length rest)) (omega (arith, fits, short)) in
      rw total (
        if_cases (Moved version script i)
          (ltb_ℤ (pos (length rest)) (pos n) || ltb_ℤ (pos n) (pos 0)) (λ _. fails malformed_push)
          (λ good.
            let inside : n ≤ length rest = ground (arith, good) in
            goes op (1 + width + n) (take n rest) _
              (rw
                (
                  int32-add 1 width (omega (arith, fits, short)),
                  int32-add (1 + width) n (omega (arith, fits, short, inside)),
                  int32-add i (1 + width + n) (omega (arith, fits, short, inside)),
                )
                refl)
              (omega arith) (omega (arith, fits, inside))))

  next_op-Moved :
      (op : ℕ) (rest : List ℕ) (z : ℤ)
      → i + (1 + length rest) ≤ length script
      → Moved version script i (next_op op rest z here)
  unfolding next_op
  next_op-Moved op rest (pos n) fits =
      if_cases (Moved version script i) (n == 1)
        (λ _.
          goes op 1 [] _ (int32-add i 1 (omega (arith, fits, short))) (omega arith)
            (omega (arith, fits)))
        (λ _.
          if_cases (Moved version script i) (n == 0) (λ _. fails index_panic)
            (λ some_byte.
              if_cases (Moved version script i) (ltb (suc (length rest)) n)
                (λ _. fails malformed_push)
                (λ enough.
                  let inside : n ≤ suc (length rest) = ground (arith, enough) in
                  goes op n (take (n - 1) rest) _
                    (int32-add i n (omega (arith, fits, short, inside))) (ground (arith, some_byte))
                    (omega (arith, fits, inside)))))
  next_op-Moved op rest (negsuc k) fits =
      if_cases (Moved version script i) (ltb (length rest) (suc k)) (λ _. fails malformed_push)
        (λ enough.
          let inside : suc k ≤ length rest = ground (arith, enough) in
          next_data-Moved op (suc k) (data_len (suc k) rest) (drop (suc k) rest)
            (omega (arith, fits, inside, length-drop (suc k) rest)))

  next_at-Moved :
      (rest : List ℕ) → i + length rest ≤ length script → Moved version script i (next_at rest here)
  next_at-Moved [] fits = fails index_panic
  next_at-Moved (op ∷ rest) fits = next_op-Moved op rest (op_length op) (omega (arith, fits))

-- At a position inside a script of fewer than 2^31 bytes, with no error met, Next either returns true,
-- strictly further on and still inside the script, or returns false and leaves a tokenizer that is done.
pub next-Moved :
    (version : ℕ) (script : List ℕ) (i : ℕ) (count : ℤ) (old : Option ℕ) (before : List ℕ)
    → i ≤ length script
    → length script < 2 ^ 31
    → Moved version script i (next (tokenizer_at version script i count old before))
unfolding next
next-Moved version script i count old before inside short =
    if_cases (Moved version script i) (done (tokenizer_at version script i count old before))
      (λ ended. stopped (tokenizer_at version script i count old before) ended)
      (λ _.
        next_at-Moved version script i (int32 (count +ℤ pos 1)) old before short (drop i script)
          (omega (arith, inside, length-drop i script)))

tokenize-done :
    (version : ℕ) (script : List ℕ) (n i : ℕ) (count : ℤ) (old : Option ℕ) (before : List ℕ)
    → i ≤ length script
    → length script < 2 ^ 31
    → length script < i + n
    → done (tokenize n (tokenizer_at version script i count old before)).1 ≡ true
unfolding tokenize
tokenize-done version script zero i count old before inside short fuel =
    absurd (omega (arith, inside, fuel))
tokenize-done version script (suc n) i count old before inside short fuel =
    go (λ j c o b ok more. tokenize-done version script n j c o b ok short more)
      (next (tokenizer_at version script i count old before))
      (next-Moved version script i count old before inside short)
  where
    go :
        ((j : ℕ) (c : ℤ) (o : Option ℕ) (b : List ℕ)
          → j ≤ length script
          → length script < j + n
          → done (tokenize n (tokenizer_at version script j c o b)).1 ≡ true)
        → (s : Step) → Moved version script i s
        → done
            (if◌then◌else◌ {A = List (ℕ × List ℕ) × ScriptTokenizer} s.0
              ((opcode s.1.op, s.1.bytes) ∷ (tokenize n s.1).0, (tokenize n s.1).1)
              ([], s.1)).1
          ≡ true
    go later s (forward j c o b ahead ok) = later j c o b ok (omega (arith, fuel, ahead))
    go later s (stopped t ended) = ended

-- A loop over Next ends on every script of fewer than 2^31 bytes, of any version, valid or not: one round for
-- each byte and one more are enough to be done.
pub tokenize_total :
    (version : ℕ) (script : List ℕ)
    → length script < 2 ^ 31
    → done (tokenize (suc (length script)) (make_script_tokenizer version script)).1 ≡ true
tokenize_total version script short =
    if_cases
      (λ (o : Option ErrorCode).
        done
          (tokenize (suc (length script))
            (record (make_script_tokenizer version script) { failure = o })).1
        ≡ true)
      (version == 0)
      (λ _.
        tokenize-done version script (suc (length script)) 0 (negsuc 0) none [] (omega arith) short
          (omega arith))
      (λ _. unfold tokenize next done in refl)
