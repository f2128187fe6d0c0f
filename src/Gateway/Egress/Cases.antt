-- ===== src/Gateway/Egress/Cases.antt =====
-- gateway/egress.py: a post either never leaves the machine, or is one call of the transport.
use gmail_b1_gateway.Prelude.{
  ◌≤◌, ◌<◌, String, ◌≡◌, ◌⊎◌, inl, inr, refl, true, Option, none, some, [], ◌∷◌, ◌++◌, elem,
  Bool-cases, ◌==◌, eq_iff,
}
use gmail_b1_gateway.Gateway.Egress.{
  Reply, answered, HttpRequest, Wire, Network, Parts, Posted, egress_blocked, other_error,
  EgressGuardedClient, post, posted, post_to, post_parts,
}

-- The provider accepted the request, or refused it.
abbrev pub IsTaken : Reply → Type 0
IsTaken (answered status body) = (200 ≤ status) × (status < 300)
IsTaken _ = ⊥

abbrev pub IsRefused : Reply → Type 0
IsRefused (answered status body) = (400 ≤ status) × (status < 500)
IsRefused _ = ⊥

-- An https address of an allowed host.
pub record IsAllowed (net : Network) (client : EgressGuardedClient) (url host : String)
    : Type 0 where
  parts : Parts
  at_url : net.urlsplit url ≡ some parts
  is_https : parts.scheme ≡ "https"
  at_host : parts.hostname ≡ some host
  is_listed : elem host client.allow_hosts ≡ true

-- An end of `post` without a call of the transport.
abbrev pub IsUnsent : Posted → Type 0
IsUnsent (egress_blocked host reason) = Unit
IsUnsent other_error = Unit
IsUnsent _ = ⊥

module _ (net : Network) (client : EgressGuardedClient) (request : HttpRequest) (wire : Wire) where
  abbrev pub Posts : Posted × Wire → Type 0
  Posts (p, wire') =
      (IsUnsent p × (wire' ≡ wire))
      ⊎ ((host : String) × IsAllowed net client request.url host
          × (wire' ≡ wire ++ request ∷ [])
          × (p ≡ posted host (net.transport wire request)))

  to-Posts :
      (scheme : String) (hostname : Option String)
      → net.urlsplit request.url ≡ some (record { scheme = scheme; hostname = hostname })
      → (scheme == "https") ≡ true
      → Posts (post_to net client hostname request wire)
  to-Posts scheme none split https = inl (tt, refl)
  to-Posts scheme (some host) split https = elim (Bool-cases (elem host client.allow_hosts)) [
    | inl m ↦ rw m (
        inr (
          host,
          record {
            parts = record { scheme = scheme; hostname = some host };
            at_url = split;
            is_https = (eq_iff scheme "https").0 https;
            at_host = refl;
            is_listed = m;
          },
          refl,
          refl,
        ))
    | inr m ↦ rw m (inl (tt, refl))
  ]

  parts-Posts :
      (o : Option Parts)
      → net.urlsplit request.url ≡ o
      → Posts (post_parts net client o request wire)
  parts-Posts none split = inl (tt, refl)
  parts-Posts (some parts) split = elim (Bool-cases (parts.scheme == "https")) [
    | inl https ↦ rw https (to-Posts parts.scheme parts.hostname split https)
    | inr http ↦ rw http (inl (tt, refl))
  ]

  pub post-Posts : Posts (post net client request wire)
  unfolding post
  post-Posts = parts-Posts (net.urlsplit request.url) refl
