-- ===== src/Gateway/TokenStore/Generations.antt =====
-- gateway/sealed_token_store.py: a reserved generation is new, and is never handed out again.
use gmail_b1_gateway.Prelude.{List, [], ◌∷◌, arith, ℤ, ◌≤ℤ◌, ◌<ℤ◌}
use gmail_b1_gateway.Keystore.Aead.{Aesgcm}
use gmail_b1_gateway.Gateway.TokenStore.{
  Blob, Db, current, current_barrier, reserve_generation, void_generation, save_commit,
  mark_ack_confirmed, invalidate_commit, clear_credentials, Call, reserve, void, save, ack,
  invalidate, clear, serve, serve_all,
}

module _ (c : Aesgcm Blob) where
  serve-last :
      (g : ℤ) (x : Call) (db : Db)
      → g ≤ℤ (current db).last_generation
      → g ≤ℤ (current (serve c x db)).last_generation
  unfolding serve reserve_generation void_generation save_commit mark_ack_confirmed
      invalidate_commit clear_credentials
  serve-last g reserve db h = ground arith
  serve-last g (void k) db h = h
  serve-last g (save provider nonce a) db h = ground arith
  serve-last g (ack o r v) db h = ground arith
  serve-last g (invalidate o) db h = ground arith
  serve-last g clear db h = ground arith

  serve_all-last :
      (g : ℤ) (xs : List Call) (db : Db)
      → g ≤ℤ (current db).last_generation
      → g ≤ℤ (current (serve_all c xs db)).last_generation
  unfolding serve_all
  serve_all-last g [] db h = h
  serve_all-last g (x ∷ xs) db h = serve_all-last g xs (serve c x db) (serve-last g x db h)

  reserve_lem :
      (db : Db)
      → ((current db).last_generation <ℤ (reserve_generation db).0)
        × ((current db).barrier <ℤ (reserve_generation db).0)
        × ((reserve_generation db).0 ≤ℤ (current (reserve_generation db).1).last_generation)
  unfolding reserve_generation
  reserve_lem db = (ground arith, ground arith, ground arith)

  -- A reserved generation is above the barrier of that moment, and every reservation after it, with
  -- any calls in between, gives a larger one.
  generations_increase :
      (db : Db) (xs : List Call)
      → let (g, db') = reserve_generation db in
        (current_barrier db <ℤ g) × (g <ℤ (reserve_generation (serve_all c xs db')).0)
  unfolding current_barrier
  generations_increase db xs =
      let (_, above, kept) = reserve_lem db in
      let (g, db') = reserve_generation db in
      let (next, _, _) = reserve_lem (serve_all c xs db') in
      (above, omega (arith, next, serve_all-last g xs db' kept))
