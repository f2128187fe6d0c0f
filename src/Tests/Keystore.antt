-- ===== src/Tests/Keystore.antt =====
-- keystore/aead.py: sealing with a toy cipher that writes the key and the associated data into the
-- ciphertext and opens one plaintext.
use gmail_b1_gateway.Prelude.{
  ℕ, String, ◌≡◌, refl, ◌≢◌, ◌⊎◌, inl, inr, none, some, List, [], ◌∷◌, ◌++◌, pos, arith, length,
  Bool, Bool-cases, true, false, beq, codes, eq_iff, ◌&&◌, if◌then◌else◌,
}
use gmail_b1_gateway.Errors.{ok}
use gmail_b1_gateway.Keystore.Providers.{Bytes}
use gmail_b1_gateway.Keystore.Aead.{
  Aesgcm, IsAuthenticated, SealedRecord, to_stored, of_stored, seal, unseal, aad, require_dek,
}
use gmail_b1_gateway.Keystore.Aead.Binding.{seal-unseal, transplant_refused}
use gmail_b1_gateway.Keystore.Decimal.{decimal}

same : Bytes → Bytes → Bool
same [] [] = true
same [] (y ∷ ys) = false
same (x ∷ xs) [] = false
same (x ∷ xs) (y ∷ ys) = beq x y && same xs ys

same-eq : (xs ys : Bytes) → same xs ys ≡ true → xs ≡ ys
unfolding same
same-eq [] [] h = refl
same-eq [] (y ∷ ys) h = cc
same-eq (x ∷ xs) [] h = cc
same-eq (x ∷ xs) (y ∷ ys) h = ground (arith, same-eq xs ys)

same_refl : (xs : Bytes) → same xs xs ≡ true
unfolding same
same_refl [] = refl
same_refl (x ∷ xs) = ground (arith, same_refl xs)

tag_of : Bytes → List ℕ → Bytes
tag_of dek aad = length dek ∷ dek ++ aad

tag_of_injective : (d e a b : Bytes) → tag_of d a ≡ tag_of e b → (d ≡ e) × (a ≡ b)
unfolding tag_of
tag_of_injective [] [] a b h = (refl, cc)
tag_of_injective [] (y ∷ e) a b h = absurd (ground arith)
tag_of_injective (x ∷ d) [] a b h = absurd (ground arith)
tag_of_injective (x ∷ d) (y ∷ e) a b h =
    let ih = tag_of_injective d e a b (ground arith) in (ground (arith, ih), ih.1)

same-differ : (xs ys : Bytes) → xs ≢ ys → same xs ys ≡ false
same-differ xs ys differ = elim (Bool-cases (same xs ys)) [
  | inl alike ↦ absurd (differ (same-eq xs ys alike))
  | inr h ↦ h
]

tags_differ : (d e a b : Bytes) → (d ≢ e) ⊎ (a ≢ b) → same (tag_of d a) (tag_of e b) ≡ false
tags_differ d e a b differ = same-differ (tag_of d a) (tag_of e b) λ alike.
    let (de, ab) = tag_of_injective d e a b alike in elim differ [ inl ne ↦ ne de | inr ne ↦ ne ab ]

unfoldable pub toy : {P : Type 0} → P → Aesgcm P
unfolding same tag_of
toy p = record {
  encrypt = λ dek nonce q aad. tag_of dek aad;
  decrypt = λ dek nonce c aad. if same c (tag_of dek aad) then some p else none;
}

pub toy-IsAuthenticated : {P : Type 0} (p : P) → IsAuthenticated (toy p) p
unfolding toy
toy-IsAuthenticated p = record {
  opens = λ dek nonce aad. ground (arith, same_refl (tag_of dek aad));
  binds = λ dek dek' nonce nonce' aad aad' differ. rw (tags_differ dek dek' aad aad' differ) refl;
}

-- A toy cipher for two plaintexts, which `is_first` tells apart.
unfoldable pub toy_pair : {P : Type 0} → P → P → (P → Bool) → Aesgcm P
unfolding same tag_of
toy_pair p q is_first = record {
  encrypt = λ dek nonce x aad. (if is_first x then 1 else 0) ∷ tag_of dek aad;
  decrypt = λ dek nonce c aad. elim c [
    | [] ↦ none
    | mark ∷ tag ↦ if same tag (tag_of dek aad) then some (if beq mark 1 then p else q) else none
  ];
}

pub toy_pair-IsAuthenticated :
    {P : Type 0} (p q : P) (is_first : P → Bool) (x : P)
    → (if is_first x then p else q) ≡ x
    → IsAuthenticated (toy_pair p q is_first) x
unfolding toy_pair
toy_pair-IsAuthenticated p q is_first x own = record {
  opens = λ dek nonce aad. ground (arith, same_refl (tag_of dek aad), own);
  binds = λ dek dek' nonce nonce' aad aad' differ. rw (tags_differ dek dek' aad aad' differ) refl;
}

abbrev pub key : Bytes
key = let eight : Bytes = 1 ∷ 2 ∷ 3 ∷ 4 ∷ 5 ∷ 6 ∷ 7 ∷ 8 ∷ [] in eight ++ eight ++ eight ++ eight

abbrev pub fresh : Bytes
fresh = 1 ∷ 2 ∷ 3 ∷ 4 ∷ 5 ∷ 6 ∷ 7 ∷ 8 ∷ 9 ∷ 10 ∷ 11 ∷ 12 ∷ []

abbrev letter : Bytes
letter = 104 ∷ 105 ∷ []

abbrev sealed : SealedRecord
sealed = record {
  version = pos 1;
  record_type = "notes";
  nonce = fresh;
  ciphertext = 32 ∷ (key ++ codes "gmail-gateway/keystore/v1/notes");
}

seals : seal (toy letter) (ok key) fresh letter "notes" (pos 1) ≡ ok sealed
unfolding seal aad require_dek toy decimal
seals = refl

abbrev notes : String
notes = "notes"

seal-unseal_example :
    (of_stored (to_stored sealed) ≡ ok sealed) × (unseal (toy letter) (ok key) sealed ≡ ok letter)
seal-unseal_example =
    seal-unseal (toy letter) letter (toy-IsAuthenticated letter) (ok key) fresh "notes" (pos 1)
      seals

transplant_refused_example :
    unseal (toy letter) (ok key) (record sealed { record_type = "oauth_credentials" }) ≢ ok letter
transplant_refused_example =
    transplant_refused (toy letter) letter (toy-IsAuthenticated letter) (ok key) (ok key) fresh
      fresh "notes" "oauth_credentials" (pos 1) (pos 1) seals
      (inl (λ e. cc ((eq_iff notes "oauth_credentials").1 e))) letter
