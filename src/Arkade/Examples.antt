-- ===== src/Arkade/Examples.antt =====
-- Concrete runs of the script machine of pkg/arkade.
use arkade_2fa_vault_poc.Prelude.{ℕ, ◌*◌, ◌≤◌, ◌≡◌, refl, true, none, some, List, [], ◌∷◌, arith}
use arkade_2fa_vault_poc.Prelude.Int.{pos, negsuc, ◌≤ℤ◌, ◌+ℤ◌, ◌*ℤ◌, int64}
use arkade_2fa_vault_poc.Arkade.Result.{ok}
use arkade_2fa_vault_poc.Arkade.Stack.{Item}
use arkade_2fa_vault_poc.Arkade.ComputeLimits.{
  default_compute_limits, aggregate_limit, aggregate_compute_limits, validate, limit_of, charge_all,
  charge_inputs, new_meter, new_compute_budget_with_limits, charge_opcode, charge_input,
  charge_budget, charge, tally,
}
use arkade_2fa_vault_poc.Arkade.ComputeLimits.Bounds.{times}
use arkade_2fa_vault_poc.Arkade.ComputeLimits.Requests.{times_in, input_bound, request_bound}
use arkade_2fa_vault_poc.Arkade.ScriptNum.{
  from_little_endian, bytes, make_script_num, max_script_num_len,
}
use arkade_2fa_vault_poc.Arkade.ScriptNum.RoundTrip.{bytes-make_script_num}
use arkade_2fa_vault_poc.Arkade.Tokenizer.{
  make_script_tokenizer, tokenize, check_script_parses, done,
}
use arkade_2fa_vault_poc.Arkade.Tokenizer.Tokens.{pushdata1, Token, single, direct, prefixed}
use arkade_2fa_vault_poc.Arkade.Tokenizer.RoundTrip.{
  Encoded, nothing, opcode_first, tokenize-Encoded,
}
use arkade_2fa_vault_poc.Arkade.Tokenizer.Progress.{tokenize_total}

-- A group of two items.
abbrev pair_of : ℕ → List Item
pair_of b = (b ∷ []) ∷ (0 ∷ b ∷ []) ∷ []

abbrev below : List Item
below = (9 ∷ []) ∷ []

known : limit_of 0xe2 default_compute_limits ≡ some (pos 2)
unfolding limit_of
known = refl

valid : validate default_compute_limits ≡ true
unfolding validate
valid = refl

input_ran : (charge_all (0xe2 ∷ 0x51 ∷ 0xe2 ∷ []) (new_meter default_compute_limits none)).0 ≡ ok tt
unfolding charge_all charge_opcode charge_input charge_budget charge tally limit_of int64 ◌+ℤ◌
input_ran = refl

input_bound_example : pos (times 0xe2 (0xe2 ∷ 0x51 ∷ 0xe2 ∷ [])) ≤ℤ pos 2
input_bound_example =
    input_bound 0xe2 (pos 2) default_compute_limits none (0xe2 ∷ 0x51 ∷ 0xe2 ∷ []) valid known
      (omega arith) input_ran

abbrev two_inputs : List (List ℕ)
two_inputs = (0xe2 ∷ 0x51 ∷ []) ∷ (0xe2 ∷ 0xe2 ∷ []) ∷ []

request_ran :
    (charge_inputs default_compute_limits two_inputs
      (some (new_compute_budget_with_limits (aggregate_compute_limits default_compute_limits)))).0
    ≡ ok tt
unfolding charge_inputs charge_all charge_opcode charge_input charge_budget charge tally limit_of
    aggregate_compute_limits aggregate_limit int64 ◌+ℤ◌ ◌*ℤ◌
request_ran = refl

request_bound_example : times_in 0xe2 two_inputs ≤ 2 * 4
request_bound_example =
    request_bound 0xe2 2 default_compute_limits two_inputs known (omega arith) request_ran

-- OP_1, a push of two bytes, a push of three bytes by OP_PUSHDATA1.
abbrev script : List ℕ
script = 0x51 ∷ 2 ∷ 7 ∷ 8 ∷ 0x4c ∷ 3 ∷ 1 ∷ 2 ∷ 3 ∷ []

abbrev script_tokens : List (ℕ × List ℕ)
script_tokens = (0x51, []) ∷ (2, 7 ∷ 8 ∷ []) ∷ (0x4c, 1 ∷ 2 ∷ 3 ∷ []) ∷ []

third : Token 0x4c (1 ∷ 2 ∷ 3 ∷ []) (0x4c ∷ 3 ∷ 1 ∷ 2 ∷ 3 ∷ [])
third = prefixed 0x4c 1 (3 ∷ []) (1 ∷ 2 ∷ 3 ∷ []) pushdata1 refl (unfold from_little_endian in refl)

script-Encoded : Encoded script_tokens script
script-Encoded =
    opcode_first (single 0x51 refl)
      (opcode_first (direct (7 ∷ 8 ∷ []) (omega arith) (omega arith)) (opcode_first third nothing))

tokenize-Encoded_example :
    ((tokenize 4 (make_script_tokenizer 0 script)).0 ≡ script_tokens)
    × (check_script_parses 0 script ≡ none)
tokenize-Encoded_example =
    tokenize-Encoded script_tokens script 4 script-Encoded (omega arith) (omega arith)

tokenize_total_example : done (tokenize 10 (make_script_tokenizer 0 script)).1 ≡ true
tokenize_total_example = tokenize_total 0 script (omega arith)

bytes-make_script_num_example :
    (out : List ℕ) × (bytes (negsuc 254) ≡ ok out)
    × (make_script_num out true max_script_num_len ≡ ok (negsuc 254))
bytes-make_script_num_example = bytes-make_script_num (negsuc 254) true (omega arith)
