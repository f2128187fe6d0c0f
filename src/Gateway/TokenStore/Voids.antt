-- ===== src/Gateway/TokenStore/Voids.antt =====
-- gateway/sealed_token_store.py: a voided operation and a generation under the barrier stay shut
-- out, whatever is called in between.
use gmail_b1_gateway.Prelude.{
  String, ◌≡◌, true, ◌⊎◌, List, [], ◌∷◌, ◌++◌, arith, ℤ, ◌≤ℤ◌, elem, eq_refl, inl, inr,
}
use gmail_b1_gateway.Errors.{Result, ok, err}
use gmail_b1_gateway.Keystore.Providers.{Bytes}
use gmail_b1_gateway.Keystore.Aead.{Aesgcm}
use gmail_b1_gateway.Gateway.TokenStore.{
  Blob, CommitRecord, Db, current, Saving, reserve_generation, void_generation, save_commit,
  mark_ack_confirmed, add_op, invalidate_commit, clear_credentials, Call, reserve, void, save, ack,
  invalidate, clear, serve, serve_all,
}

abbrev pub IsVoided : String → Db → Type 0
IsVoided op db = elem op (current db).invalidated_ops ≡ true

elem-append : (s : String) (xs ys : List String) → elem s xs ≡ true → elem s (xs ++ ys) ≡ true
elem-append s [] ys h = cc
elem-append s (x ∷ xs) ys h = ground (arith, elem-append s xs ys)

elem-append_self : (s : String) (xs : List String) → elem s (xs ++ s ∷ []) ≡ true
elem-append_self s [] = ground (arith, eq_refl s)
elem-append_self s (x ∷ xs) = ground (arith, elem-append_self s xs)

elem-add_op :
    (s op : String) (ops : List String) → elem s ops ≡ true → elem s (add_op op ops) ≡ true
elem-add_op s op ops h = ground (arith, elem-append s ops (op ∷ []))

elem-add_op_self : (op : String) (ops : List String) → elem op (add_op op ops) ≡ true
elem-add_op_self op ops = ground (arith, elem-append_self op ops)

-- The call raised and left the row alone.
abbrev pub IsRefused : Result CommitRecord × Db → Db → Type 0
IsRefused (ok r, db') db = ⊥
IsRefused (err e, db') db = db' ≡ db

voids : (op : String) (db : Db) → IsVoided op (invalidate_commit op db).1
unfolding invalidate_commit
voids op db = ground (arith, elem-add_op_self op (current db).invalidated_ops)

module _ (c : Aesgcm Blob) where
  serve-IsVoided : (op : String) (x : Call) (db : Db) → IsVoided op db → IsVoided op (serve c x db)
  unfolding serve reserve_generation void_generation save_commit mark_ack_confirmed
      invalidate_commit clear_credentials
  serve-IsVoided op reserve db h = h
  serve-IsVoided op (void g) db h = h
  serve-IsVoided op (save provider nonce a) db h = ground arith
  serve-IsVoided op (ack o r v) db h = ground arith
  serve-IsVoided op (invalidate o) db h =
      ground (arith, elem-add_op op o (current db).invalidated_ops h)
  serve-IsVoided op clear db h = ground arith

  serve-barrier :
      (g : ℤ) (x : Call) (db : Db)
      → g ≤ℤ (current db).barrier
      → g ≤ℤ (current (serve c x db)).barrier
  unfolding serve reserve_generation void_generation save_commit mark_ack_confirmed
      invalidate_commit clear_credentials
  serve-barrier g reserve db h = h
  serve-barrier g (void k) db h = ground arith
  serve-barrier g (save provider nonce a) db h = ground arith
  serve-barrier g (ack o r v) db h = ground arith
  serve-barrier g (invalidate o) db h = ground arith
  serve-barrier g clear db h = ground arith

  serve_all-IsVoided :
      (op : String) (xs : List Call) (db : Db) → IsVoided op db → IsVoided op (serve_all c xs db)
  unfolding serve_all
  serve_all-IsVoided op [] db h = h
  serve_all-IsVoided op (x ∷ xs) db h =
      serve_all-IsVoided op xs (serve c x db) (serve-IsVoided op x db h)

  serve_all-barrier :
      (g : ℤ) (xs : List Call) (db : Db)
      → g ≤ℤ (current db).barrier
      → g ≤ℤ (current (serve_all c xs db)).barrier
  unfolding serve_all
  serve_all-barrier g [] db h = h
  serve_all-barrier g (x ∷ xs) db h = serve_all-barrier g xs (serve c x db) (serve-barrier g x db h)

  save-IsRefused :
      (provider : Result Bytes) (nonce : Bytes) (a : Saving) (db : Db)
      → IsVoided a.operation_id db ⊎ (a.generation ≤ℤ (current db).barrier)
      → IsRefused (save_commit c provider nonce a db) db
  unfolding save_commit
  save-IsRefused provider nonce a db h = ground arith

  -- Once an operation was invalidated, then after any further calls, also a clearing of the
  -- credentials, a commit for it is refused and changes nothing.
  pub invalidated_stays_out :
      (op : String) (xs : List Call) (db : Db) (provider : Result Bytes) (nonce : Bytes)
      (a : Saving)
      → a.operation_id ≡ op
      → let later = serve_all c xs (invalidate_commit op db).1 in
        IsRefused (save_commit c provider nonce a later) later
  invalidated_stays_out op xs db provider nonce a same =
      save-IsRefused provider nonce a (serve_all c xs (invalidate_commit op db).1)
        (inl (rw same (serve_all-IsVoided op xs (invalidate_commit op db).1 (voids op db))))

  -- Once the barrier was raised to a generation, then after any further calls a commit of that
  -- generation or an earlier one is refused and changes nothing.
  pub barrier_stays_up :
      (g : ℤ) (xs : List Call) (db : Db) (provider : Result Bytes) (nonce : Bytes) (a : Saving)
      → a.generation ≤ℤ g
      → let later = serve_all c xs (void_generation g db) in
        IsRefused (save_commit c provider nonce a later) later
  unfolding void_generation
  barrier_stays_up g xs db provider nonce a below =
      let raised = serve_all-barrier g xs (void_generation g db) (ground arith) in
      save-IsRefused provider nonce a (serve_all c xs (void_generation g db))
        (inr (omega (arith, raised)))
