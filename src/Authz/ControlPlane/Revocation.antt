-- ===== src/Authz/ControlPlane/Revocation.antt =====
-- authz/state.py and authz/gate.py: a revoked grant authorizes nothing more.
use gmail_b1_gateway.Prelude.{
  ℕ, ◌+◌, String, ◌≡◌, ◌≢◌, inl, inr, refl, sym, ap, ◌∙◌, Bool, true, false, none, some, List, [],
  ◌∷◌, arith, number_text, ◌==◌, eq_iff, is_some, Bool-cases,
}
use gmail_b1_gateway.Dict.{Dict, lookup, insert, erase, lookup-insert, lookup-erase}
use gmail_b1_gateway.Json.{Value}
use gmail_b1_gateway.Errors.{Error, ok, err, Result-cases}
use gmail_b1_gateway.Keystore.Decimal.Canonical.{number_text-canonical}
use gmail_b1_gateway.Authz.Artifact.{valid, is_grant_id, is_canonical_decimal}
use gmail_b1_gateway.Authz.Grant.{Grant}
use gmail_b1_gateway.Authz.State.{active, membership, lists_pair, lists_grant}
use gmail_b1_gateway.Authz.Service.{AuthorizationRequest}
use gmail_b1_gateway.Authz.Gate.{Safety, Anchors, Outside, Authorization}
use gmail_b1_gateway.Authz.Gate.Checks.{verify_grant}
use gmail_b1_gateway.Authz.Gate.Authorize.{authorize}
use gmail_b1_gateway.Authz.Gate.Sound.{authorize-IsAuthorized}
use gmail_b1_gateway.Authz.ControlPlane.{
  HeadState, revoke, supersede, Signer, Relay, sync, Order, revoking, superseding, adding, obey,
  obey_all,
}
use gmail_b1_gateway.Authz.ControlPlane.Emitted.{AreGrants, AreIds, IsSigner}
use gmail_b1_gateway.Authz.ControlPlane.Synced.{IsWellFormed, standing, synced_membership}

-- An order names its grant by a well-formed id, and an added version is canonical.
abbrev pub IsOrder : Order → Type 0
IsOrder (revoking g) = is_grant_id g ≡ true
IsOrder (superseding g n) = is_grant_id g ≡ true
IsOrder (adding g v) = (is_grant_id g ≡ true) × (is_canonical_decimal v ≡ true)

abbrev pub AreOrders : List Order → Type 0
AreOrders [] = Unit
AreOrders (o ∷ orders) = IsOrder o × AreOrders orders

-- No order puts the grant among the active ones.
abbrev pub Leaves : String → Order → Type 0
Leaves g (revoking h) = Unit
Leaves g (superseding h n) = (h == g) ≡ false
Leaves g (adding h v) = (h == g) ≡ false

abbrev pub AllLeave : String → List Order → Type 0
AllLeave g [] = Unit
AllLeave g (o ∷ orders) = Leaves g o × AllLeave g orders

insert-AreGrants :
    (g v : String) (pairs : Dict String)
    → is_grant_id g ≡ true
    → is_canonical_decimal v ≡ true
    → AreGrants pairs
    → AreGrants (insert g v pairs)
unfolding insert
insert-AreGrants g v [] h k all = (h, k, tt)
insert-AreGrants g v ((a, b) ∷ pairs) h k all = elim (Bool-cases (a == g)) [
  | inl same ↦ rw same (h, k, all.2)
  | inr other ↦ rw other (all.0, all.1, insert-AreGrants g v pairs h k all.2)
]

erase-AreGrants : (g : String) (pairs : Dict String) → AreGrants pairs → AreGrants (erase g pairs)
unfolding erase
erase-AreGrants g [] all = tt
erase-AreGrants g ((a, b) ∷ pairs) all = elim (Bool-cases (a == g)) [
  | inl same ↦ rw same (erase-AreGrants g pairs all.2)
  | inr other ↦ rw other (all.0, all.1, erase-AreGrants g pairs all.2)
]

insert-AreIds :
    (g : String) (n : ℕ) (rs : Dict ℕ) → is_grant_id g ≡ true → AreIds rs → AreIds (insert g n rs)
unfolding insert
insert-AreIds g n [] h all = (h, tt)
insert-AreIds g n ((a, m) ∷ rs) h all = elim (Bool-cases (a == g)) [
  | inl same ↦ rw same (h, all.1)
  | inr other ↦ rw other (all.0, insert-AreIds g n rs h all.1)
]

erase-AreIds : (g : String) (rs : Dict ℕ) → AreIds rs → AreIds (erase g rs)
unfolding erase
erase-AreIds g [] all = tt
erase-AreIds g ((a, m) ∷ rs) all = elim (Bool-cases (a == g)) [
  | inl same ↦ rw same (erase-AreIds g rs all.1)
  | inr other ↦ rw other (all.0, erase-AreIds g rs all.1)
]

obey-IsWellFormed :
    (o : Order) (st : HeadState) → IsOrder o → IsWellFormed st → IsWellFormed (obey o st)
unfolding obey
obey-IsWellFormed (revoking g) st h good = record {
  grants = erase-AreGrants g st.active good.grants;
  ids = insert-AreIds g (st.version_int + 1) st.revocations h good.ids;
}
obey-IsWellFormed (superseding g n) st h good = record {
  grants = insert-AreGrants g (number_text n) st.active h (number_text-canonical n) good.grants;
  ids = good.ids;
}
obey-IsWellFormed (adding g v) st h good = record {
  grants = insert-AreGrants g v st.active h.0 h.1 good.grants;
  ids = erase-AreIds g st.revocations good.ids;
}

revoke-IsWellFormed :
    (g : String) (st : HeadState)
    → is_grant_id g ≡ true
    → IsWellFormed st
    → IsWellFormed (revoke g st)
unfolding obey
revoke-IsWellFormed g st h good = obey-IsWellFormed (revoking g) st h good

obey_all-IsWellFormed :
    (orders : List Order) (st : HeadState)
    → AreOrders orders
    → IsWellFormed st
    → IsWellFormed (obey_all orders st)
unfolding obey_all
obey_all-IsWellFormed [] st h good = good
obey_all-IsWellFormed (o ∷ orders) st h good =
    obey_all-IsWellFormed orders (obey o st) h.1 (obey-IsWellFormed o st h.0 good)

-- A grant that is revoked and listed in no version.
abbrev IsOut : String → HeadState → Type 0
IsOut g st = (is_some (lookup g st.revocations) ≡ true) × (lists_grant g st.active ≡ false)

lists_grant-insert :
    (g h v : String) (pairs : Dict String)
    → (h == g) ≡ false
    → lists_grant g pairs ≡ false
    → lists_grant g (insert h v pairs) ≡ false
unfolding insert
lists_grant-insert g h v [] other k = ground arith
lists_grant-insert g h v ((a, b) ∷ pairs) other k =
    ground (arith, eq_iff a h, eq_iff h g, eq_iff a g, lists_grant-insert g h v pairs other)

lists_grant-erase :
    (g h : String) (pairs : Dict String)
    → lists_grant g pairs ≡ false
    → lists_grant g (erase h pairs) ≡ false
unfolding erase
lists_grant-erase g h [] k = refl
lists_grant-erase g h ((a, b) ∷ pairs) k = ground (arith, lists_grant-erase g h pairs)

lists_grant-erase_self : (g : String) (pairs : Dict String) → lists_grant g (erase g pairs) ≡ false
unfolding erase
lists_grant-erase_self g [] = refl
lists_grant-erase_self g ((a, b) ∷ pairs) = ground (arith, lists_grant-erase_self g pairs)

revoke-IsOut : (g : String) (st : HeadState) → IsOut g (revoke g st)
unfolding revoke
revoke-IsOut g st = (
  ground (arith, lookup-insert g g (st.version_int + 1) st.revocations, eq_iff g g),
  lists_grant-erase_self g st.active,
)

obey-IsOut :
    (g : String) (o : Order) (st : HeadState) → Leaves g o → IsOut g st → IsOut g (obey o st)
unfolding obey
obey-IsOut g (revoking h) st leaves out = (
  ground (arith, lookup-insert h g (st.version_int + 1) st.revocations, out.0),
  lists_grant-erase g h st.active out.1,
)
obey-IsOut g (superseding h n) st leaves out =
    (out.0, lists_grant-insert g h (number_text n) st.active leaves out.1)
obey-IsOut g (adding h v) st leaves out = (
  ground (arith, lookup-erase h g st.revocations, out.0, leaves),
  lists_grant-insert g h v st.active leaves out.1,
)

obey_all-IsOut :
    (g : String) (orders : List Order) (st : HeadState)
    → AllLeave g orders
    → IsOut g st
    → IsOut g (obey_all orders st)
unfolding obey_all
obey_all-IsOut g [] st leaves out = out
obey_all-IsOut g (o ∷ orders) st leaves out =
    obey_all-IsOut g orders (obey o st) leaves.1 (obey-IsOut g o st leaves.0 out)

lists_pair-of_grant :
    (g v : String) (pairs : Dict String)
    → lists_grant g pairs ≡ false
    → lists_pair g v pairs ≡ false
lists_pair-of_grant g v [] k = refl
lists_pair-of_grant g v ((a, b) ∷ pairs) k = ground (arith, lists_pair-of_grant g v pairs)

standing-ne-active :
    (g v : String) (st : HeadState) (shown : Bool) → IsOut g st → standing st shown g v ≢ active
standing-ne-active g v st true out h = absurd (ground (arith, out.0, h))
standing-ne-active g v st false out h =
    absurd (ground (arith, out.1, lists_pair-of_grant g v st.active out.1, h))

lists_pair-insert : (g v : String) (pairs : Dict String) → lists_pair g v (insert g v pairs) ≡ true
unfolding insert
lists_pair-insert g v [] = ground (arith, eq_iff g g, eq_iff v v)
lists_pair-insert g v ((a, b) ∷ pairs) =
    ground (arith, eq_iff a g, eq_iff g g, eq_iff v v, lists_pair-insert g v pairs)

-- An order that supersedes a revoked grant lists it again, so that a relay which drops the revocation
-- makes it active.
superseded_again :
    (g : String) (n : ℕ) (st : HeadState)
    → standing (supersede g n (revoke g st)) false g (number_text n) ≡ active
unfolding supersede
superseded_again g n st = rw (lists_pair-insert g (number_text n) (revoke g st).active) refl

module _ (gate : Anchors) (key : Signer) (law : IsSigner gate key) where
  not_authorized :
      (g : String) (orders : List Order) (st : HeadState) (relay : Relay)
      (request : AuthorizationRequest) (out : Outside) (digest : String) (s : Safety) {env : Value}
      {grant : Grant}
      → IsWellFormed st
      → is_grant_id g ≡ true
      → AreOrders orders
      → AllLeave g orders
      → relay.withheld ≡ none
      → sync gate.prim key relay (obey_all orders (revoke g st)) ≡ some env
      → out.synced ≡ some env
      → verify_grant gate request ≡ ok (valid grant)
      → grant.grant_id ≡ g
      → (a : Authorization) (t : Safety) → authorize gate request out digest s ≢ (ok a, t)
  not_authorized g orders st relay request out digest s {env} {grant} good id are leave honest
        synced seen granted named a t h =
      let later = obey_all orders (revoke g st) in
      let well =
        obey_all-IsWellFormed orders (revoke g st) are (revoke-IsWellFormed g st id good) in
      let is_out = obey_all-IsOut g orders (revoke g st) leave (revoke-IsOut g st) in
      let (head, reads, _, _, classes) =
        synced_membership gate key law later relay well honest synced in
      let ev = authorize-IsAuthorized gate request out digest s h in
      let (env', seen', reads') = ev.shipped in
      let same_env : env' ≡ env = ground (arith, seen, seen') in
      let same_head : ev.head ≡ head = ground (arith, reads, rw same_env at reads') in
      let same_grant : ev.grant ≡ grant = ground (arith, granted, ev.granted) in
      let same_id : ev.grant.grant_id ≡ g = ap (λ (x : Grant). x.grant_id) same_grant ∙ named in
      let listed : membership head g ev.grant.grant_version ≡ active =
        rw (sym same_head) (rw (sym same_id) ev.allowed.listed) in
      standing-ne-active g ev.grant.grant_version later relay.include_revocations is_out
        (sym (classes g ev.grant.grant_version) ∙ listed)

  -- After a grant is revoked, whatever the operator orders next, short of adding or superseding that very grant,
  -- every call of the gate on what an honest relay ships then, be it with the revocations or without them,
  -- for a request under that grant, in any version, ends in an exception.
  pub revoked_stays_denied :
      (g : String) (orders : List Order) (st : HeadState) (relay : Relay)
      (request : AuthorizationRequest) (out : Outside) (digest : String) (s : Safety) {env : Value}
      {grant : Grant}
      → IsWellFormed st
      → is_grant_id g ≡ true
      → AreOrders orders
      → AllLeave g orders
      → relay.withheld ≡ none
      → sync gate.prim key relay (obey_all orders (revoke g st)) ≡ some env
      → out.synced ≡ some env
      → verify_grant gate request ≡ ok (valid grant)
      → grant.grant_id ≡ g
      → (e : Error) × ((authorize gate request out digest s).0 ≡ err e)
  revoked_stays_denied g orders st relay request out digest s good id are leave honest synced seen
        granted named =
      elim (Result-cases (authorize gate request out digest s).0) [
        | inr denied ↦ denied
        | inl (a, allowed) ↦ absurd (
            not_authorized g orders st relay request out digest s good id are leave honest synced
              seen granted named a (authorize gate request out digest s).1
              (ap (λ r. (r, (authorize gate request out digest s).1)) allowed))
      ]
