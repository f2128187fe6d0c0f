-- ===== src/Gateway/ProposalApi/Surface.antt =====
-- gateway/proposal_api.py: the requests that are served at all.
use Prim.Native.Char.{code}
use Prim.Native.String.{◌++◌ as str_append}
use Prim.Native.String.append
use text.Mathlib.TextEquality.{Char-path}
use gmail_b1_gateway.Prelude.{
  String, ◌≡◌, ◌⊎◌, inl, inr, refl, codes, is_ascii, ◌≢◌, ap, ◌∙◌, sym, true, false, none, some,
  Option, arith, eq_iff, subst, ◌==◌, Bool-cases, Option-cases, beq,
}
use gmail_b1_gateway.SendFsm.{Fsm}
use gmail_b1_gateway.Gateway.ProposalApi.{
  State, Method, get, post, other, Request, Response, dropped, Server, uniform_404, after_prefix,
  before_suffix, is_segment, segment, proposal_id_from_path, confirm_id_from_path, authed,
  presented, by_method, get_authed, post_authed, handle,
}

-- Without the session's bearer every request, whatever its method, path and body, gets the one 404, and
-- changes nothing.
pub unauthenticated_uniform :
    (server : Server) (r : Request) (s : State)
    → authed server r ≡ some false
    → handle server r s ≡ (uniform_404, s)
unfolding handle
unauthenticated_uniform server r s h = ground (arith, h)

after_prefix_ok : (p s : String) {r : String} → after_prefix p s ≡ some r → s ≡ str_append p r
unfolding after_prefix
after_prefix_ok String.[] s {r} h = (cc h) ∙ sym (append.nil r)
after_prefix_ok (String.◌∷◌ c p) String.[] h = absurd (cc h)
after_prefix_ok (String.◌∷◌ c p) (String.◌∷◌ d s) {r} h =
    elim (Bool-cases (beq (code c) (code d))) [
      | inl same ↦
          let chars : c ≡ d = Char-path c d (ground (arith, same)) in
          let rest = after_prefix_ok p s {r = r} (ground (arith, h, same)) in
          ap (λ t. String.◌∷◌ d t) rest
          ∙ ap (λ x. String.◌∷◌ x (str_append p r)) (sym chars)
          ∙ sym (append.cons c p r)
      | inr differ ↦ absurd (ground (arith, differ))
    ]

before_suffix_ok : (t s : String) {r : String} → before_suffix t s ≡ some r → s ≡ str_append r t
unfolding before_suffix
before_suffix_ok t String.[] {r} h = elim (Bool-cases (t == "")) [
  | inl empty ↦
      let at : r ≡ "" = ground (arith, h, empty) in
      rw at (sym ((eq_iff t "").0 empty) ∙ sym (append.nil t))
  | inr full ↦ absurd (ground (arith, h, full))
]
before_suffix_ok t (String.◌∷◌ c s) {r} h = elim (Bool-cases (String.◌∷◌ c s == t)) [
  | inl whole ↦
      let at : r ≡ "" = ground (arith, h, whole) in
      rw at ((eq_iff (String.◌∷◌ c s) t).0 whole ∙ sym (append.nil t))
  | inr part ↦ elim (Option-cases (before_suffix t s)) [
    | inl e ↦ absurd (ground (arith, h, part, e))
    | inr (q, e) ↦
        let at : r ≡ String.◌∷◌ c q = ground (arith, h, part, e) in
        rw at (ap (λ x. String.◌∷◌ c x) (before_suffix_ok t s {r = q} e) ∙ sym (append.cons c q t))
  ]
]

-- The three requests that exist: a proposal, a status, and a confirmation where a dispatcher is mounted.
pub data IsServed (server : Server) (r : Request) : Type 0 where
  proposal : r.method ≡ post → r.path ≡ "/proposal" → IsServed server r
  status :
      (id : String)
      → r.method ≡ get
      → r.path ≡ str_append "/proposal/" id
      → is_segment id ≡ true
      → IsServed server r
  confirmation :
      (id : String) (fsm : Fsm)
      → r.method ≡ post
      → r.path ≡ str_append "/proposal/" (str_append id "/confirm")
      → is_segment id ≡ true
      → server.confirm ≡ some fsm
      → IsServed server r

segment_ok :
    (o : Option String) {i : String} → segment o ≡ some i → (o ≡ some i) × (is_segment i ≡ true)
segment_ok (some s) {i} h = elim (Bool-cases (is_segment s)) [
  | inl good ↦ let e : s ≡ i = ground (arith, h, good) in (ap (λ x. some x) e, rw e at good)
  | inr bad ↦ absurd (ground (arith, h, bad))
]
segment_ok none h = absurd (cc h)

proposal_id_ok :
    (path : String) {i : String}
    → proposal_id_from_path path ≡ some i
    → (path ≡ str_append "/proposal/" i) × (is_segment i ≡ true)
unfolding proposal_id_from_path
proposal_id_ok path {i} h =
    let (at, good) = segment_ok (after_prefix "/proposal/" path) {i = i} h in
    (after_prefix_ok "/proposal/" path {r = i} at, good)

confirm_id_ok :
    (path : String) {i : String}
    → confirm_id_from_path path ≡ some i
    → (path ≡ str_append "/proposal/" (str_append i "/confirm")) × (is_segment i ≡ true)
unfolding confirm_id_from_path
confirm_id_ok path {i} h = elim (Option-cases (after_prefix "/proposal/" path)) [
  | inl e ↦ absurd (ground (arith, h, e))
  | inr (rest, e) ↦
      let (at, good) = segment_ok (before_suffix "/confirm" rest) {i = i} (ground (arith, h, e)) in
      (
        after_prefix_ok "/proposal/" path {r = rest} e
            ∙ ap (str_append "/proposal/") (before_suffix_ok "/confirm" rest {r = i} at),
        good,
      )
]

-- The header is the session's bearer behind its scheme.
abbrev pub HasBearer : Server → Request → Type 0
HasBearer server r = r.authorization ≡ some (str_append "Bearer " server.session_bearer)

-- A bearer that is not ASCII: the one in the header, or the session's own.
abbrev pub IsNotAscii : Server → Request → Type 0
IsNotAscii server r =
    ((token : String) × (r.authorization ≡ some (str_append "Bearer " token))
      × (is_ascii (codes token) ≡ false))
    ⊎ (is_ascii (codes server.session_bearer) ≡ false)

presented_cases :
    (header : Option String)
    → (presented header ≡ "") ⊎ (header ≡ some (str_append "Bearer " (presented header)))
presented_cases none = inl refl
presented_cases (some h) = elim (Option-cases (after_prefix "Bearer " h)) [
  | inl unlike ↦ inl (ground (arith, unlike))
  | inr (token, e) ↦
      let same : presented (some h) ≡ token = ground (arith, e) in
      inr (
        ap some (after_prefix_ok "Bearer " h {r = token} e)
        ∙ ap (λ t. some (str_append "Bearer " t)) (sym same))
]

-- The authentication passes only with the session's bearer, which is not empty.
authed-HasBearer :
    (server : Server) (r : Request)
    → server.session_bearer ≢ ""
    → authed server r ≡ some true
    → HasBearer server r
unfolding authed
authed-HasBearer server r minted h =
    let same : presented r.authorization ≡ server.session_bearer =
      ground (arith, h, eq_iff (presented r.authorization) server.session_bearer) in
    elim (presented_cases r.authorization) [
      | inl none' ↦ absurd (minted (sym same ∙ none'))
      | inr e ↦ e ∙ ap (λ t. some (str_append "Bearer " t)) same
    ]

authed-IsNotAscii : (server : Server) (r : Request) → authed server r ≡ none → IsNotAscii server r
unfolding authed
authed-IsNotAscii server r h = elim (Bool-cases (is_ascii (codes server.session_bearer))) [
  | inr odd ↦ inr odd
  | inl plain ↦
      let odd : is_ascii (codes (presented r.authorization)) ≡ false = ground (arith, h, plain) in
      elim (presented_cases r.authorization) [
        | inl none' ↦ absurd (cc (rw none' at odd))
        | inr e ↦ inl (presented r.authorization, e, odd)
      ]
]

module _ (server : Server) (minted : server.session_bearer ≢ "") (r : Request) (s : State) where
  -- A request is refused, dropped, or served.
  abbrev Sorted : Response × State → Type 0
  Sorted x =
      (x ≡ (uniform_404, s))
      ⊎ ((x ≡ (dropped, s)) × IsNotAscii server r)
      ⊎ (HasBearer server r × IsServed server r)

  served_post :
      r.method ≡ post → authed server r ≡ some true → Sorted (post_authed server r (some true) s)
  served_post is_post good = elim (Bool-cases (r.path == "/proposal")) [
    | inl whole ↦ inr (
        inr (
          authed-HasBearer server r minted good,
          IsServed.proposal is_post ((eq_iff r.path "/proposal").0 whole),
        ))
    | inr part ↦ elim (Option-cases (confirm_id_from_path r.path)) [
      | inl e ↦ inl (ground (arith, part, e))
      | inr (id, e) ↦ elim (Option-cases server.confirm) [
        | inl off ↦ inl (ground (arith, part, e, off))
        | inr (fsm, on) ↦
            let (at, segment) = confirm_id_ok r.path e in
            inr (
              inr (
                authed-HasBearer server r minted good,
                IsServed.confirmation id fsm is_post at segment on,
              ))
      ]
    ]
  ]

  served_get :
      r.method ≡ get
      → authed server r ≡ some true
      → Sorted (get_authed (proposal_id_from_path r.path) (some true) s)
  served_get is_get good = elim (Option-cases (proposal_id_from_path r.path)) [
    | inl e ↦ inl (ground (arith, e))
    | inr (id, e) ↦
        let (at, segment) = proposal_id_ok r.path e in
        inr (inr (authed-HasBearer server r minted good, IsServed.status id is_get at segment))
  ]

  by_method-Sorted : (m : Method) → r.method ≡ m → Sorted (by_method server r m s)
  by_method-Sorted other is_other = inl refl
  by_method-Sorted post is_post = elim (Option-cases (authed server r)) [
    | inl e ↦ inr (inl (ground (arith, e), authed-IsNotAscii server r e))
    | inr (true, e) ↦ subst (λ x. Sorted (post_authed server r x s)) (sym e) (served_post is_post e)
    | inr (false, e) ↦ inl (ground (arith, e))
  ]
  by_method-Sorted get is_get = elim (Option-cases (authed server r)) [
    | inl e ↦ inr (inl (ground (arith, e), authed-IsNotAscii server r e))
    | inr (true, e) ↦
        subst (λ x. Sorted (get_authed (proposal_id_from_path r.path) x s)) (sym e)
          (served_get is_get e)
    | inr (false, e) ↦ inl (ground (arith, e))
  ]

  -- Where the session's bearer is not empty, every request gets the one 404 and changes nothing; or its bearer, or the session's, is not ASCII, its connection is
  -- dropped and it changes nothing; or its header is "Bearer " with the session's bearer and it is one of the three: POST
  -- /proposal, GET /proposal/{id}, or, where a dispatcher is mounted, POST /proposal/{id}/confirm, with
  -- one id segment that is not empty.
  pub closed_surface : Sorted (handle server r s)
  unfolding handle
  closed_surface = by_method-Sorted r.method refl
