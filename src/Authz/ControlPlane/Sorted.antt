-- ===== src/Authz/ControlPlane/Sorted.antt =====
-- authz/state.py: sorting the pairs of a head changes no membership.
use gmail_b1_gateway.Prelude.{
  String, ◌≡◌, inl, inr, refl, sym, ap, ◌∙◌, Bool, true, false, List, [], ◌∷◌, arith, ◌||◌, ◌&&◌,
  ◌==◌, eq_iff, Bool-cases, ℕ, is_some, elem,
}
use gmail_b1_gateway.Dict.{Dict, lookup}
use gmail_b1_gateway.Authz.State.{lists_pair, lists_grant}
use gmail_b1_gateway.Authz.ControlPlane.{
  insert_pair, le_pair, le_text, same_pair, sorted_set, insert_revocation, sorted_revocations,
}

or_again : (x y : Bool) → (x || y) ≡ (x || (x || y))
or_again true y = refl
or_again false y = refl

or_swap : (x y z : Bool) → (x || (y || z)) ≡ (y || (x || z))
or_swap true true z = refl
or_swap true false z = refl
or_swap false y z = refl

same_pair_ok : (c d a b : String) → same_pair (c, d) (a, b) ≡ true → (c ≡ a) × (d ≡ b)
same_pair_ok c d a b h = (ground (arith, eq_iff c a), ground (arith, eq_iff c a, eq_iff d b))

-- Sorting changes no membership.
lists_pair-insert_pair :
    (g v a b : String) (pairs : List (String × String))
    → lists_pair g v (insert_pair (a, b) pairs) ≡ lists_pair g v ((a, b) ∷ pairs)
unfolding insert_pair
lists_pair-insert_pair g v a b [] = refl
lists_pair-insert_pair g v a b ((c, d) ∷ pairs) = elim (Bool-cases (same_pair (c, d) (a, b))) [
  | inl same ↦
      let (e, f) = same_pair_ok c d a b same in
      rw same (rw e (rw f (or_again (a == g && b == v) (lists_pair g v pairs))))
  | inr other ↦ rw other (elim (Bool-cases (le_pair (a, b) (c, d))) [
    | inl early ↦ rw early refl
    | inr late ↦ rw late (
        rw (lists_pair-insert_pair g v a b pairs)
          (or_swap (c == g && d == v) (a == g && b == v) (lists_pair g v pairs)))
  ])
]

lists_grant-insert_pair :
    (g a b : String) (pairs : List (String × String))
    → lists_grant g (insert_pair (a, b) pairs) ≡ lists_grant g ((a, b) ∷ pairs)
unfolding insert_pair
lists_grant-insert_pair g a b [] = refl
lists_grant-insert_pair g a b ((c, d) ∷ pairs) = elim (Bool-cases (same_pair (c, d) (a, b))) [
  | inl same ↦
      let (e, f) = same_pair_ok c d a b same in
      rw same (rw e (or_again (a == g) (lists_grant g pairs)))
  | inr other ↦ rw other (elim (Bool-cases (le_pair (a, b) (c, d))) [
    | inl early ↦ rw early refl
    | inr late ↦
        rw late (
          rw (lists_grant-insert_pair g a b pairs)
            (or_swap (c == g) (a == g) (lists_grant g pairs)))
  ])
]

pub lists_pair-sorted_set :
    (g v : String) (pairs : List (String × String))
    → lists_pair g v (sorted_set pairs) ≡ lists_pair g v pairs
unfolding sorted_set
lists_pair-sorted_set g v [] = refl
lists_pair-sorted_set g v ((a, b) ∷ pairs) =
    lists_pair-insert_pair g v a b (sorted_set pairs)
    ∙ ap (λ r. (a == g && b == v) || r) (lists_pair-sorted_set g v pairs)

pub lists_grant-sorted_set :
    (g : String) (pairs : List (String × String))
    → lists_grant g (sorted_set pairs) ≡ lists_grant g pairs
unfolding sorted_set
lists_grant-sorted_set g [] = refl
lists_grant-sorted_set g ((a, b) ∷ pairs) =
    lists_grant-insert_pair g a b (sorted_set pairs)
    ∙ ap (λ r. a == g || r) (lists_grant-sorted_set g pairs)

-- The grants of a table of revocations.
abbrev pub ids : Dict ℕ → List String
ids [] = []
ids ((g, n) ∷ rs) = g ∷ ids rs

elem-insert_revocation :
    (g h : String) (n : ℕ) (rs : Dict ℕ)
    → elem g (ids (insert_revocation h n rs)) ≡ elem g (ids ((h, n) ∷ rs))
unfolding insert_revocation
elem-insert_revocation g h n [] = refl
elem-insert_revocation g h n ((k, m) ∷ rs) = elim (Bool-cases (le_text h k)) [
  | inl early ↦ rw early refl
  | inr late ↦
      rw late (rw (elem-insert_revocation g h n rs) (or_swap (k == g) (h == g) (elem g (ids rs))))
]

elem-lookup : (g : String) (rs : Dict ℕ) → elem g (ids rs) ≡ is_some (lookup g rs)
unfolding lookup
elem-lookup g [] = refl
elem-lookup g ((h, n) ∷ rs) = ground (arith, elem-lookup g rs)

-- A grant is among the sorted revocations exactly when it is in the table.
pub elem-sorted_revocations :
    (g : String) (rs : Dict ℕ) → elem g (ids (sorted_revocations rs)) ≡ is_some (lookup g rs)
unfolding sorted_revocations
elem-sorted_revocations g [] = elem-lookup g []
elem-sorted_revocations g ((h, n) ∷ rs) =
    elem-insert_revocation g h n (sorted_revocations rs)
    ∙ (ap (λ r. h == g || r) (elem-sorted_revocations g rs ∙ sym (elem-lookup g rs))
        ∙ elem-lookup g ((h, n) ∷ rs))
