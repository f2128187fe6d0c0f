-- ===== src/Canonicalizer/Jcs/Injective.antt =====
-- canonicalizer/jcs.py: two values with the same canonical text are the same value, up to the order of
-- the members of their objects.
use gmail_b1_gateway.Prelude.{
  ℕ, String, ◌≡◌, refl, sym, ap, ◌∙◌, true, false, some, List, [], ◌∷◌, ◌++◌, arith, Option-cases,
  inl, inr,
}
use mathlib.Core.List.{append_assoc, append-nil}
use gmail_b1_gateway.Json.{
  Value, Items, Fields, null, boolean, int, float, str, arr, obj, nil, cons, end, field,
}
use gmail_b1_gateway.Keystore.Decimal.{EndsNumber}
use gmail_b1_gateway.Keystore.Providers.{Bytes}
use gmail_b1_gateway.Canonicalizer.Jcs.{
  serialize_string, joined, joined_rest, serialize, serialize_items, serialize_members, ordered,
  encode, canonicalize,
}
use gmail_b1_gateway.Canonicalizer.Jcs.Texts.{
  serialize_string-prefix, serialize_number-prefix, encode-injective,
}
use gmail_b1_gateway.Canonicalizer.Jcs.Prefix.{
  kind, kind_of_head, serialize_head, items_ok, members_ok, array_ok, object_ok, rest_ends,
}

-- Texts that begin alike are of values of one kind.
same_kind :
    (v v' : Value) (t t' r r' : List ℕ)
    → serialize v ≡ some t
    → serialize v' ≡ some t'
    → t ++ r ≡ t' ++ r'
    → kind v ≡ kind v'
same_kind v v' [] t' r r' h k e = absurd (serialize_head v [] h)
same_kind v v' (c ∷ cs) [] r r' h k e = absurd (serialize_head v' [] k)
same_kind v v' (c ∷ cs) (d ∷ ds) r r' h k e =
    let (one, _) = serialize_head v (c ∷ cs) h in
    let (two, _) = serialize_head v' (d ∷ ds) k in
    let same : c ≡ d = cc e in sym one ∙ ap kind_of_head same ∙ two

-- No value begins with a code point that begins none.
not_a_head :
    (v : Value) (t x y : List ℕ) (c : ℕ)
    → serialize v ≡ some t
    → kind_of_head c ≡ 6
    → t ++ x ≡ c ∷ y
    → ⊥
not_a_head v [] x y c h k e = serialize_head v [] h
not_a_head v (d ∷ ds) x y c h k e =
    let (one, valid) = serialize_head v (d ∷ ds) h in
    let same : d ≡ c = cc e in omega (arith, sym one ∙ ap kind_of_head same ∙ k, valid)

member_text :
    (l : String) (t : List ℕ) (ts : List (List ℕ)) (r : List ℕ)
    → joined ((serialize_string l ++ 58 ∷ t) ∷ ts) ++ r
      ≡ serialize_string l ++ 58 ∷ (t ++ (joined_rest ts ++ r))
member_text l t ts r =
    append_assoc (serialize_string l ++ 58 ∷ t) (joined_rest ts) r
    ∙ append_assoc (serialize_string l) (58 ∷ t) (joined_rest ts ++ r)

-- Two objects' texts from the first key on, bracketed from the right.
member_texts :
    (l m : String) (t u : List ℕ) (ts us : List (List ℕ)) (c : ℕ) (r r' : List ℕ)
    → joined ((serialize_string l ++ 58 ∷ t) ∷ ts) ++ c ∷ r
      ≡ joined ((serialize_string m ++ 58 ∷ u) ∷ us) ++ c ∷ r'
    → serialize_string l ++ 58 ∷ (t ++ (joined_rest ts ++ c ∷ r))
      ≡ serialize_string m ++ 58 ∷ (u ++ (joined_rest us ++ c ∷ r'))
member_texts l m t u ts us c r r' e =
    sym (member_text l t ts (c ∷ r)) ∙ e ∙ member_text m u us (c ∷ r')

mutual
  unfolding serialize serialize_items serialize_members

  serialize_prefix :
      (v v' : Value) (t t' r r' : List ℕ)
      → serialize v ≡ some t
      → serialize v' ≡ some t'
      → EndsNumber r
      → EndsNumber r'
      → t ++ r ≡ t' ++ r'
      → (v ≡ v') × (r ≡ r')
  serialize_prefix null null t t' r r' h k f g e = (refl, ground (arith, h, k, e))
  serialize_prefix (boolean true) (boolean true) t t' r r' h k f g e =
      (refl, ground (arith, h, k, e))
  serialize_prefix (boolean true) (boolean false) t t' r r' h k f g e =
      absurd (ground (arith, h, k, e))
  serialize_prefix (boolean false) (boolean true) t t' r r' h k f g e =
      absurd (ground (arith, h, k, e))
  serialize_prefix (boolean false) (boolean false) t t' r r' h k f g e =
      (refl, ground (arith, h, k, e))
  serialize_prefix (int m) (int n) t t' r r' h k f g e =
      let (same, after) = serialize_number-prefix m n t t' r r' h k f g e in (cc same, after)
  serialize_prefix (str a) (str b) t t' r r' h k f g e =
      let (same, after) = serialize_string-prefix a b r r' (cc (h, k, e)) in (cc same, after)
  serialize_prefix (arr vs) (arr ws) t t' r r' h k f g e =
      let (ts, at, left) = array_ok vs t h in
      let (us, at', right) = array_ok ws t' k in
      let (same, after) = items_prefix vs ws ts us r r' at at' (
        cc (
          e,
          left,
          right,
          append_assoc (joined ts) (93 ∷ []) r,
          append_assoc (joined us) (93 ∷ []) r',
        )) in
      (cc same, after)
  serialize_prefix (obj c) (obj d) t t' r r' h k f g e =
      let (ts, at, left) = object_ok c t h in
      let (us, at', right) = object_ok d t' k in
      let (same, after) = members_prefix c d ts us r r' at at' (
        cc (
          e,
          left,
          right,
          append_assoc (joined ts) (125 ∷ []) r,
          append_assoc (joined us) (125 ∷ []) r',
        )) in
      (cc same, after)
  serialize_prefix (float a) v' t t' r r' h k f g e = absurd (cc h)
  serialize_prefix v v' t t' r r' h k f g e = absurd (omega (arith, same_kind v v' t t' r r' h k e))

  items_prefix :
      (vs ws : Items) (ts us : List (List ℕ)) (r r' : List ℕ)
      → serialize_items vs ≡ some ts
      → serialize_items ws ≡ some us
      → joined ts ++ 93 ∷ r ≡ joined us ++ 93 ∷ r'
      → (vs ≡ ws) × (r ≡ r')
  items_prefix nil nil ts us r r' h k e = (refl, ground (arith, h, k, e))
  items_prefix nil (cons w ws) ts us r r' h k e =
      let (u, us', at_u, at_us, right) = items_ok w ws us k in
      absurd (
        not_a_head w u (joined_rest us' ++ 93 ∷ r') r 93 at_u refl
          (cc (e, h, right, append_assoc u (joined_rest us') (93 ∷ r'))))
  items_prefix (cons v vs) nil ts us r r' h k e =
      let (t, ts', at_t, at_ts, left) = items_ok v vs ts h in
      absurd (
        not_a_head v t (joined_rest ts' ++ 93 ∷ r) r' 93 at_t refl
          (cc (e, k, left, append_assoc t (joined_rest ts') (93 ∷ r))))
  items_prefix (cons v vs) (cons w ws) ts us r r' h k e =
      let (t, ts', at_t, at_ts, left) = items_ok v vs ts h in
      let (u, us', at_u, at_us, right) = items_ok w ws us k in
      let (same, after) =
        serialize_prefix v w t u (joined_rest ts' ++ 93 ∷ r) (joined_rest us' ++ 93 ∷ r') at_t at_u
          (rest_ends ts' 93 r (omega arith)) (rest_ends us' 93 r' (omega arith))
          (cc (
            e,
            left,
            right,
            append_assoc t (joined_rest ts') (93 ∷ r),
            append_assoc u (joined_rest us') (93 ∷ r'),
          )) in
      let (others, rest) = items_rest vs ws ts' us' r r' at_ts at_us after in
      (cc (same, others), rest)

  items_rest :
      (vs ws : Items) (ts us : List (List ℕ)) (r r' : List ℕ)
      → serialize_items vs ≡ some ts
      → serialize_items ws ≡ some us
      → joined_rest ts ++ 93 ∷ r ≡ joined_rest us ++ 93 ∷ r'
      → (vs ≡ ws) × (r ≡ r')
  items_rest nil nil ts us r r' h k e = (refl, ground (arith, h, k, e))
  items_rest nil (cons w ws) ts us r r' h k e =
      let (u, us', at_u, at_us, right) = items_ok w ws us k in absurd (ground (arith, h, right, e))
  items_rest (cons v vs) nil ts us r r' h k e =
      let (t, ts', at_t, at_ts, left) = items_ok v vs ts h in absurd (ground (arith, k, left, e))
  items_rest (cons v vs) (cons w ws) ts us r r' h k e =
      let (t, ts', at_t, at_ts, left) = items_ok v vs ts h in
      let (u, us', at_u, at_us, right) = items_ok w ws us k in
      let (same, after) =
        serialize_prefix v w t u (joined_rest ts' ++ 93 ∷ r) (joined_rest us' ++ 93 ∷ r') at_t at_u
          (rest_ends ts' 93 r (omega arith)) (rest_ends us' 93 r' (omega arith))
          (cc (
            e,
            left,
            right,
            append_assoc t (joined_rest ts') (93 ∷ r),
            append_assoc u (joined_rest us') (93 ∷ r'),
          )) in
      let (others, rest) = items_rest vs ws ts' us' r r' at_ts at_us after in
      (cc (same, others), rest)

  members_prefix :
      (vs ws : Fields) (ts us : List (List ℕ)) (r r' : List ℕ)
      → serialize_members vs ≡ some ts
      → serialize_members ws ≡ some us
      → joined ts ++ 125 ∷ r ≡ joined us ++ 125 ∷ r'
      → (vs ≡ ws) × (r ≡ r')
  members_prefix end end ts us r r' h k e = (refl, ground (arith, h, k, e))
  members_prefix end (field m w ws) ts us r r' h k e =
      let (u, us', at_u, at_us, right) = members_ok m w ws us k in
      absurd (ground (arith, h, right, e))
  members_prefix (field l v vs) end ts us r r' h k e =
      let (t, ts', at_t, at_ts, left) = members_ok l v vs ts h in
      absurd (ground (arith, k, left, e))
  members_prefix (field l v vs) (field m w ws) ts us r r' h k e =
      let (t, ts', at_t, at_ts, left) = members_ok l v vs ts h in
      let (u, us', at_u, at_us, right) = members_ok m w ws us k in
      let x = joined_rest ts' ++ 125 ∷ r in
      let y = joined_rest us' ++ 125 ∷ r' in
      let (key, after_key) =
        serialize_string-prefix l m (58 ∷ (t ++ x)) (58 ∷ (u ++ y))
          (member_texts l m t u ts' us' 125 r r' (cc (e, left, right))) in
      let (same, after) =
        serialize_prefix v w t u x y at_t at_u (rest_ends ts' 125 r (omega arith))
          (rest_ends us' 125 r' (omega arith)) (cc after_key) in
      let (others, rest) = members_rest vs ws ts' us' r r' at_ts at_us after in
      (cc (key, same, others), rest)

  members_rest :
      (vs ws : Fields) (ts us : List (List ℕ)) (r r' : List ℕ)
      → serialize_members vs ≡ some ts
      → serialize_members ws ≡ some us
      → joined_rest ts ++ 125 ∷ r ≡ joined_rest us ++ 125 ∷ r'
      → (vs ≡ ws) × (r ≡ r')
  members_rest end end ts us r r' h k e = (refl, ground (arith, h, k, e))
  members_rest end (field m w ws) ts us r r' h k e =
      let (u, us', at_u, at_us, right) = members_ok m w ws us k in
      absurd (ground (arith, h, right, e))
  members_rest (field l v vs) end ts us r r' h k e =
      let (t, ts', at_t, at_ts, left) = members_ok l v vs ts h in
      absurd (ground (arith, k, left, e))
  members_rest (field l v vs) (field m w ws) ts us r r' h k e =
      let (t, ts', at_t, at_ts, left) = members_ok l v vs ts h in
      let (u, us', at_u, at_us, right) = members_ok m w ws us k in
      let x = joined_rest ts' ++ 125 ∷ r in
      let y = joined_rest us' ++ 125 ∷ r' in
      let (key, after_key) =
        serialize_string-prefix l m (58 ∷ (t ++ x)) (58 ∷ (u ++ y))
          (member_texts l m t u ts' us' 125 r r' (cc (e, left, right))) in
      let (same, after) =
        serialize_prefix v w t u x y at_t at_u (rest_ends ts' 125 r (omega arith))
          (rest_ends us' 125 r' (omega arith)) (cc after_key) in
      let (others, rest) = members_rest vs ws ts' us' r r' at_ts at_us after in
      (cc (key, same, others), rest)

-- Two values with the same canonical bytes are the same value, with the members of every object in
-- order: the canonical form loses nothing but that order.
pub canonicalize-injective :
    (v v' : Value) (b : Bytes)
    → canonicalize v ≡ some b
    → canonicalize v' ≡ some b
    → ordered v ≡ ordered v'
unfolding canonicalize
canonicalize-injective v v' b h k = elim (Option-cases (serialize (ordered v))) [
  | inl e ↦ absurd (ground (arith, e))
  | inr (t, e) ↦ elim (Option-cases (serialize (ordered v'))) [
    | inl f ↦ absurd (ground (arith, f))
    | inr (t', f) ↦
        let bytes : encode t ≡ encode t' = ground (arith, e, f, h, k) in
        let texts = encode-injective t t' bytes in
        (serialize_prefix (ordered v) (ordered v') t t' [] [] e f tt tt
          (append-nil t ∙ texts ∙ sym (append-nil t'))).0
  ]
]
