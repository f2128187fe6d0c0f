-- ===== src/Keystore/Aead/Binding.antt =====
-- keystore/aead.py: what was sealed opens, and only as what it was sealed as.
use gmail_b1_gateway.Prelude.{
  ℕ, zero, suc, ◌⊎◌, inl, inr, String, ◌≡◌, refl, sym, ◌∙◌, ◌≢◌, some, List, [], ◌∷◌, ◌++◌, arith,
  ℤ, pos, negsuc, codes, codes_injective, ◌==◌, Bool-cases,
}
use gmail_b1_gateway.Errors.{Result, ok}
use gmail_b1_gateway.Errors.{Result-cases}
use gmail_b1_gateway.Keystore.Decimal.{decimal, decimal_slash}
use gmail_b1_gateway.Keystore.Providers.{Bytes}
use gmail_b1_gateway.Keystore.Aead.{
  Aesgcm, IsAuthenticated, require_dek, aad, SealedRecord, to_stored, of_stored, seal, unseal,
}

append_cancel : (cs : List ℕ) {ds es : List ℕ} → cs ++ ds ≡ cs ++ es → ds ≡ es
append_cancel [] e = e
append_cancel (c ∷ cs) e = append_cancel cs (cc)

abbrev prefix : List ℕ
prefix = codes "gmail-gateway/keystore/v"

aad_tag :
    (t : String) (v : ℤ) (tag : List ℕ)
    → aad t v ≡ ok tag
    → (n : ℕ) × (v ≡ pos n) × (tag ≡ prefix ++ (decimal n ++ 47 ∷ codes t))
unfolding aad
aad_tag t (negsuc n) tag h = cc
aad_tag t (pos zero) tag h = cc
aad_tag t (pos (suc n)) tag h = elim (Bool-cases (t == "")) [
  | inl empty ↦ absurd (cc (rw empty at h))
  | inr named ↦ (suc n, refl, cc (rw named at h))
]

-- The tag of a record type and a version determines both.
pub aad_injective :
    (t t' : String) (v v' : ℤ) (tag : List ℕ)
    → aad t v ≡ ok tag
    → aad t' v' ≡ ok tag
    → (t ≡ t') × (v ≡ v')
aad_injective t t' v v' tag h k =
    let (m, at_m, tag_m) = aad_tag t v tag h in
    let (n, at_n, tag_n) = aad_tag t' v' tag k in
    let (same, rest) =
      decimal_slash m n (codes t) (codes t') (append_cancel prefix (sym tag_m ∙ tag_n)) in
    (codes_injective t t' rest, cc)

module _ {P : Type 0} (c : Aesgcm P) where
  -- What `seal` returns under a key, `open` returns under the same key; and the storage form
  -- reads back as the sealed record.
  pub seal-unseal :
      (p : P) (law : IsAuthenticated c p) (provider : Result Bytes) (nonce : Bytes) (t : String)
      (v : ℤ) {s : SealedRecord}
      → seal c provider nonce p t v ≡ ok s
      → (of_stored (to_stored s) ≡ ok s) × (unseal c provider s ≡ ok p)
  unfolding seal unseal to_stored of_stored
  seal-unseal p law provider nonce t v {s} h = (ground arith, grind (arith, law.opens))

  record IsSealed (provider : Result Bytes) (nonce : Bytes) (p : P) (t : String) (v : ℤ)
      (s : SealedRecord) : Type 0 where
    tag : List ℕ
    dek : Bytes
    of_tag : aad t v ≡ ok tag
    of_dek : require_dek provider ≡ ok dek
    of_cipher : s.ciphertext ≡ c.encrypt dek nonce p tag

  seal-IsSealed :
      (provider : Result Bytes) (nonce : Bytes) (p : P) (t : String) (v : ℤ) {s : SealedRecord}
      → seal c provider nonce p t v ≡ ok s
      → IsSealed provider nonce p t v s
  unfolding seal
  seal-IsSealed provider nonce p t v {s} h = elim (Result-cases (aad t v)) [
    | inl (tag, of_tag) ↦ elim (Result-cases (require_dek provider)) [
      | inl (dek, of_dek) ↦ record {
        tag = tag;
        dek = dek;
        of_tag = of_tag;
        of_dek = of_dek;
        of_cipher = ground arith;
      }
      | inr (e, no_dek) ↦ absurd (ground arith)
    ]
    | inr (e, no_tag) ↦ absurd (ground arith)
  ]

  unseal_ok :
      (provider : Result Bytes) (s : SealedRecord) {q : P}
      → unseal c provider s ≡ ok q
      → (tag : List ℕ) × (dek : Bytes) × (aad s.record_type s.version ≡ ok tag)
        × (c.decrypt dek s.nonce s.ciphertext tag ≡ some q)
  unfolding unseal
  unseal_ok provider s h = elim (Result-cases (aad s.record_type s.version)) [
    | inl (tag, of_tag) ↦ elim (Result-cases (require_dek provider)) [
      | inl (dek, of_dek) ↦ (tag, dek, of_tag, ground arith)
      | inr (e, no_dek) ↦ absurd (ground arith)
    ]
    | inr (e, no_tag) ↦ absurd (ground arith)
  ]

  -- A sealed record that is presented under another record type or version does not open, whatever
  -- key, nonce and provider it is opened with.
  pub transplant_refused :
      (p : P) (law : IsAuthenticated c p) (provider provider' : Result Bytes) (nonce nonce' : Bytes)
      (t t' : String) (v v' : ℤ) {s : SealedRecord}
      → seal c provider nonce p t v ≡ ok s
      → (t ≢ t') ⊎ (v ≢ v')
      → (q : P)
      → unseal c provider' (record s { record_type = t'; version = v'; nonce = nonce' }) ≢ ok q
  transplant_refused p law provider provider' nonce nonce' t t' v v' {s} h differ q opened =
      let sealed = seal-IsSealed provider nonce p t v h in
      let moved : SealedRecord = record s { record_type = t'; version = v'; nonce = nonce' } in
      let (tag', dek', of_tag', got) = unseal_ok provider' moved opened in
      let other_tag : sealed.tag ≢ tag' = λ same.
        let (tt', vv') = aad_injective t t' v v' tag' (rw same at sealed.of_tag) of_tag' in
        elim differ [ inl ne ↦ ne tt' | inr ne ↦ ne vv' ] in
      let refused = law.binds sealed.dek dek' nonce nonce' sealed.tag tag' (inr other_tag) in
      cc (refused, got, sealed.of_cipher)
