-- ===== src/Vault/Signed.antt =====
-- The signatures that verifyRoutinePartials of poc/2fa-vault/internal/vault/tx.go takes.
use mathlib.Core.List.{Permᴰ}
use mathlib.Core.List.Permᴰ
use arkade_2fa_vault_poc.Prelude.{
  ℕ, ◌≡◌, refl, ap, true, not, Option, none, some, List, [], ◌∷◌, ◌++◌, map, All, ◌==◌, Bool-cases,
  inl, inr, arith,
}
use arkade_2fa_vault_poc.Prelude.Bytes.{bytes_eq, bytes_eq_iff}
use arkade_2fa_vault_poc.Prelude.Checks.{
  Checked, accepted, refused, require, ◌>>◌, accepted-eq, >>=-accepted, require-accepted,
}
use arkade_2fa_vault_poc.Vault.{
  TaprootScriptSpendSig, VaultError, bad_sighash, duplicate_signature, wrong_leaf_hash,
  duplicate_phone, duplicate_vault, duplicate_arkade, unexpected_key,
}
use arkade_2fa_vault_poc.Vault.Classify.{sig_hash_default, is_nil}
use arkade_2fa_vault_poc.Vault.Partials.{
  Wanted, Taken, is_seen, key_of, assign, take_signature, take_signatures,
}

abbrev pub entry_of : Option TaprootScriptSpendSig → List TaprootScriptSpendSig
entry_of none = []
entry_of (some s) = s ∷ []

abbrev pub entries : Taken → List TaprootScriptSpendSig
entries taken = entry_of taken.phone ++ (entry_of taken.vault ++ entry_of taken.arkade)

-- Each signature that was taken has its key.
pub record AreKeyed (want : Wanted) (taken : Taken) : Type 0 where
  pub phone : (s : TaprootScriptSpendSig) → taken.phone ≡ some s → s.x_only_pub_key ≡ want.phone
  pub vault : (s : TaprootScriptSpendSig) → taken.vault ≡ some s → s.x_only_pub_key ≡ want.vault
  pub arkade : (s : TaprootScriptSpendSig) → taken.arkade ≡ some s → s.x_only_pub_key ≡ want.arkade

nil_test : {A : Type 0} (o : Option A) → is_nil o ≡ true → o ≡ none
nil_test none h = refl
nil_test (some a) h = cc

only_some :
    (s t : TaprootScriptSpendSig) → ◌≡◌ {A = Option TaprootScriptSpendSig} (some s) (some t) → s ≡ t
only_some s t h = cc h

middle :
    (s : TaprootScriptSpendSig) (xs ys : List TaprootScriptSpendSig)
    → Permᴰ (s ∷ (xs ++ ys)) (xs ++ (s ∷ ys))
middle s [] ys = Permᴰ.refl (s ∷ ys)
middle s (x ∷ xs) ys = Permᴰ.trans (Permᴰ.swap refl refl) (Permᴰ.cons refl (middle s xs ys))

-- One more signature is taken, under its key.
abbrev Takes : Wanted → TaprootScriptSpendSig → Taken → Taken → Type 0
Takes want s taken next = Permᴰ (s ∷ entries taken) (entries next) × AreKeyed want next

phone_taken :
    (want : Wanted) (s : TaprootScriptSpendSig) (taken : Taken)
    → AreKeyed want taken
    → s.x_only_pub_key ≡ want.phone
    → taken.phone ≡ none
    → Takes want s taken (record taken { phone = some s })
phone_taken want s taken keyed key empty = (
  rw empty (Permᴰ.refl (s ∷ (entry_of taken.vault ++ entry_of taken.arkade))),
  record {
    phone = λ t same. rw (← only_some s t same) key;
    vault = keyed.vault;
    arkade = keyed.arkade;
  },
)

vault_taken :
    (want : Wanted) (s : TaprootScriptSpendSig) (taken : Taken)
    → AreKeyed want taken
    → s.x_only_pub_key ≡ want.vault
    → taken.vault ≡ none
    → Takes want s taken (record taken { vault = some s })
vault_taken want s taken keyed key empty = (
  rw empty (middle s (entry_of taken.phone) (entry_of taken.arkade)),
  record {
    phone = keyed.phone;
    vault = λ t same. rw (← only_some s t same) key;
    arkade = keyed.arkade;
  },
)

arkade_taken :
    (want : Wanted) (s : TaprootScriptSpendSig) (taken : Taken)
    → AreKeyed want taken
    → s.x_only_pub_key ≡ want.arkade
    → taken.arkade ≡ none
    → Takes want s taken (record taken { arkade = some s })
arkade_taken want s taken keyed key empty = (
  rw empty (
      Permᴰ.trans (middle s (entry_of taken.phone) (entry_of taken.vault ++ []))
        (Permᴰ.append_left (entry_of taken.phone) (middle s (entry_of taken.vault) []))),
  record {
    phone = keyed.phone;
    vault = keyed.vault;
    arkade = λ t same. rw (← only_some s t same) key;
  },
)

-- A branch of the switch.
branch :
    (want : Wanted) (s : TaprootScriptSpendSig) (taken next filled : Taken)
    (slot : Option TaprootScriptSpendSig) (e : VaultError)
    → (slot ≡ none → Takes want s taken filled)
    → (require (is_nil slot) e >> accepted filled) ≡ accepted next
    → Takes want s taken next
branch want s taken next filled slot e takes h =
    let (empty, made) = require-accepted (is_nil slot) e (accepted filled) next h in
    let same = accepted-eq filled next made in rw (← same) (takes (nil_test slot empty))

assign-Takes :
    (want : Wanted) (s : TaprootScriptSpendSig) (taken next : Taken)
    → AreKeyed want taken
    → assign want s taken ≡ accepted next
    → Takes want s taken next
unfolding assign
assign-Takes want s taken next keyed h = elim (Bool-cases (bytes_eq s.x_only_pub_key want.phone)) [
  | inl phone ↦
      branch want s taken next (record taken { phone = some s }) taken.phone duplicate_phone
        (phone_taken want s taken keyed ((bytes_eq_iff s.x_only_pub_key want.phone).0 phone))
        (rw phone at h)
  | inr not_phone ↦ elim (Bool-cases (bytes_eq s.x_only_pub_key want.vault)) [
    | inl vault ↦
        branch want s taken next (record taken { vault = some s }) taken.vault duplicate_vault
          (vault_taken want s taken keyed ((bytes_eq_iff s.x_only_pub_key want.vault).0 vault))
          (rw (not_phone, vault) at h)
    | inr not_vault ↦ elim (Bool-cases (bytes_eq s.x_only_pub_key want.arkade)) [
      | inl arkade ↦
          branch want s taken next (record taken { arkade = some s }) taken.arkade duplicate_arkade
            (arkade_taken want s taken keyed ((bytes_eq_iff s.x_only_pub_key want.arkade).0 arkade))
            (rw (not_phone, not_vault, arkade) at h)
      | inr other ↦
          let wrong : ◌≡◌ {A = Checked VaultError Taken} (refused unexpected_key) (accepted next) =
            rw (not_phone, not_vault, other) at h in
          cc wrong
    ]
  ]
]

-- The loop takes every signature of the list, each for the leaf and with the default hash type.
abbrev pub IsForLeaf : Wanted → Option TaprootScriptSpendSig → Type 0
IsForLeaf want o =
    (s : TaprootScriptSpendSig) × (o ≡ some s)
    × (s.leaf_hash ≡ want.leaf_hash)
    × (s.sig_hash ≡ sig_hash_default)

pub record AreTaken (want : Wanted) (sigs : List (Option TaprootScriptSpendSig))
    (taken next : Taken) : Type 0 where
  pub met : List TaprootScriptSpendSig
  pub sigs_of : sigs ≡ map (λ (s : TaprootScriptSpendSig). some s) met
  pub perm : Permᴰ (met ++ entries taken) (entries next)
  pub keyed : AreKeyed want next
  pub for_leaf : All (IsForLeaf want) sigs

pub take_signatures-AreTaken :
    (want : Wanted) (seen : List (List ℕ)) (sigs : List (Option TaprootScriptSpendSig))
    (taken next : Taken)
    → AreKeyed want taken
    → take_signatures want seen sigs taken ≡ accepted next
    → AreTaken want sigs taken next
unfolding take_signatures take_signature
take_signatures-AreTaken want seen [] taken next keyed h =
    let same = accepted-eq taken next h in
    record {
      met = [];
      sigs_of = refl;
      perm = rw (← same) (Permᴰ.refl (entries taken));
      keyed = rw (← same) keyed;
      for_leaf = tt;
    }
take_signatures-AreTaken want seen (none ∷ sigs) taken next keyed h = cc
take_signatures-AreTaken want seen (some s ∷ sigs) taken next keyed h =
    let (after, one, rest) = >>=-accepted (take_signature want seen s taken) _ next h in
    let (_, h1) =
      require-accepted (not (is_seen (key_of s) seen)) duplicate_signature _ after one in
    let (kind, h2) = require-accepted (s.sig_hash == sig_hash_default) bad_sighash _ after h1 in
    let (leaf, h3) =
      require-accepted (bytes_eq s.leaf_hash want.leaf_hash) wrong_leaf_hash _ after h2 in
    let (perm, keyed_after) = assign-Takes want s taken after keyed h3 in
    let tail = take_signatures-AreTaken want (key_of s ∷ seen) sigs after next keyed_after rest in
    record {
      met = s ∷ tail.met;
      sigs_of = ap (λ (l : List (Option TaprootScriptSpendSig)). some s ∷ l) tail.sigs_of;
      perm =
          Permᴰ.trans (middle s tail.met (entries taken))
            (Permᴰ.trans (Permᴰ.append_left tail.met perm) tail.perm);
      keyed = tail.keyed;
      for_leaf = (
        (s, refl, (bytes_eq_iff s.leaf_hash want.leaf_hash).0 leaf, ground (arith, kind)),
        tail.for_leaf,
      );
    }
