-- ===== src/Gateway/Persistence/Writes.antt =====
-- gateway/persistence.py: one write, committed whole or discarded whole.
use gmail_b1_gateway.Prelude.{
  ◌≡◌, ◌⊎◌, inl, inr, true, false, none, refl, arith, Bool, Option, some,
}
use gmail_b1_gateway.Errors.{Result, ok, err, connection_evicted}
use gmail_b1_gateway.Gateway.Persistence.{
  Sqlite, Faults, Execute, Commit, executed, durable, view, write, select,
}

module _ {T : Type 0} where
  -- No write is left in an open transaction, unless the connection is given up.
  abbrev pub IsClean : Sqlite T → Type 0
  IsClean s = (s.broken ≡ true) ⊎ (s.conn.pending ≡ none)

  view_clean : (s : Sqlite T) → IsClean s → s.broken ≡ false → view s.conn ≡ s.conn.committed
  view_clean s clean live = ground arith

  -- A write that returned is committed, and one that raised did not take place, and will not with a
  -- later one.
  abbrev pub Wrote : (T → T) → Sqlite T → Result (Unit {0}) × Sqlite T → Type 0
  Wrote f s (ok _, t) = (t.conn.committed ≡ f s.conn.committed) × IsClean t
  Wrote f s (err e, t) = (t.conn.committed ≡ s.conn.committed) × IsClean t

  write_cases :
      (f : T → T) (c : T) (p : Option T) (is_closed is_broken : Bool) (e : Execute) (k : Commit)
      (rb cr : Bool)
      → let x : Faults = record {
        execute = e;
        commit = k;
        rollback_raises = rb;
        close_raises = cr;
      } in
        let s : Sqlite T = record {
          conn = record { committed = c; pending = p; closed = is_closed };
          broken = is_broken;
        } in
        IsClean s → Wrote f s (write x f s)
  unfolding write
  write_cases f c p is_closed true e k rb cr clean = (refl, inl refl)
  write_cases f c p true false e k rb true clean = (refl, inl refl)
  write_cases f c p true false e k rb false clean = (refl, inl refl)
  write_cases f c (some q) false false e k rb cr clean = absurd (ground arith)
  write_cases f c none false false executed durable rb cr clean = (refl, inr refl)
  write_cases f c none false false e k false cr clean = (refl, inr refl)
  write_cases f c none false false e k true true clean = (refl, inl refl)
  write_cases f c none false false e k true false clean = (refl, inl refl)

  pub write-Wrote : (x : Faults) (f : T → T) (s : Sqlite T) → IsClean s → Wrote f s (write x f s)
  write-Wrote x f s clean =
      write_cases f s.conn.committed s.conn.pending s.conn.closed s.broken x.execute x.commit
        x.rollback_raises x.close_raises clean

  -- A read that returned has read the committed table, and no read changes anything.
  pub select_ok :
      {A : Type 0} (x : Faults) (f : T → A) (s : Sqlite T) {a : A}
      → IsClean s
      → (select x f s).0 ≡ ok a
      → a ≡ f s.conn.committed
  unfolding select
  select_ok x f s clean h = ground arith

  pub select_state : {A : Type 0} (x : Faults) (f : T → A) (s : Sqlite T) → (select x f s).1 ≡ s
  unfolding select
  select_state x f s = ground arith

  pub write_broken :
      (x : Faults) (f : T → T) (s : Sqlite T)
      → s.broken ≡ true
      → write x f s ≡ (err connection_evicted, s)
  unfolding write
  write_broken x f s h = rw h refl
