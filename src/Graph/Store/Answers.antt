-- ===== src/Graph/Store/Answers.antt =====
-- What the read operations answer, in terms of the abstract view.
use nostr_wot_oracle.Prelude.{
  nat_eq, ℕ, zero, suc, ◌<◌, ◌≡◌, ◌∙◌, ◌&&◌, ap, List, [], ◌∷◌, Bool, false, Option, none, some,
  length, refl, arith, Option-cases, inl, inr, Bool-cases, ◌==◌, map, take, drop, keep, filter_map,
  get_elem?, get_or, length-map,
}
use mathlib.Core.Option
use nostr_wot_oracle.Prelude.Str.{Str, str_key, str_eq_iff, contains}
use nostr_wot_oracle.Prelude.Dict.{lookup}
use nostr_wot_oracle.Prelude.Sorted.{
  Below, member, Below-member, Below-of_members, binary_search-member,
}
use nostr_wot_oracle.Graph.Adjacency.{row, intersect}
use nostr_wot_oracle.Graph.Adjacency.Merge.{intersect_lem}
use nostr_wot_oracle.Graph.Store.Types.{WotGraph}
use nostr_wot_oracle.Graph.Store.Query.{
  name_of, common_follows, has_edge, mute_evidence, muters_of, get_follows_page, get_follows,
}
use nostr_wot_oracle.Graph.Store.View.{linked, mute_row, follows, mutes}
use nostr_wot_oracle.Graph.Store.Invariant.{WellFormed}
use nostr_wot_oracle.Graph.Store.Invariant.Names.{id_eq, named_id}

get_or_of_get_elem? :
    (xs : List Str) (i : ℕ) (v : Str) → get_elem? xs i ≡ some v → get_or xs i [] ≡ v
get_or_of_get_elem? [] i v h = cc
get_or_of_get_elem? (x ∷ xs) zero v h = ground arith
get_or_of_get_elem? (x ∷ xs) (suc i) v h = get_or_of_get_elem? xs i v h

row_of_get_elem? :
    (rows : List (List ℕ)) (i : ℕ) (r : List ℕ) → get_elem? rows i ≡ some r → row rows i ≡ r
row_of_get_elem? [] i r h = cc
row_of_get_elem? (x ∷ rows) zero r h = ground arith
row_of_get_elem? (x ∷ rows) (suc i) r h = row_of_get_elem? rows i r h

map-take : (f : ℕ → Str) (n : ℕ) (xs : List ℕ) → map f (take n xs) ≡ take n (map f xs)
map-take f zero xs = refl
map-take f (suc n) [] = refl
map-take f (suc n) (x ∷ xs) = ap (◌∷◌ (f x)) (map-take f n xs)

map-slice :
    (f : ℕ → Str) (o n : ℕ) (xs : List ℕ) → map f (take n (drop o xs)) ≡ take n (drop o (map f xs))
map-slice f zero n xs = map-take f n xs
map-slice f (suc o) n [] = map-take f n []
map-slice f (suc o) n (x ∷ xs) = map-slice f o n xs

abbrev listed : Option ℕ → List ℕ → Bool
listed none ids = false
listed (some c) ids = member c ids

member-keep : (f : ℕ → Bool) (c : ℕ) (ids : List ℕ) → member c (keep f ids) ≡ member c ids && f c
member-keep f c [] = refl
member-keep f c (i ∷ ids) = elim (Bool-cases (i == c)) [
  | inl e ↦
      let same : i ≡ c = ground arith in
      rw same (elim (Bool-cases (f c)) [
        | inl t ↦ ground (arith, member-keep f c ids)
        | inr t ↦ ground (arith, member-keep f c ids)
      ])
  | inr e ↦ elim (Bool-cases (f i)) [
    | inl t ↦ ground (arith, member-keep f c ids)
    | inr t ↦ ground (arith, member-keep f c ids)
  ]
]

module _ (g : WotGraph) (w : WellFormed g) where
  named : (i : ℕ) → i < length g.id_to_pubkey → lookup (name_of g i) g.pubkey_to_id ≡ some i
  named i h =
      let (p, e) = named_id g w i h in
      ap (λ x. lookup x g.pubkey_to_id) (get_or_of_get_elem? g.id_to_pubkey i p ((w.named p i).0 e))
      ∙ e

  -- The names of a list of ids are the keys whose ids are in it.
  contains-names :
      (ids : List ℕ) (r : Str) (o : Option ℕ)
      → Below (length g.id_to_pubkey) ids
      → lookup r g.pubkey_to_id ≡ o
      → contains r (map (name_of g) ids) ≡ listed o ids
  contains-names [] r none h e = refl
  contains-names [] r (some c) h e = refl
  contains-names (i ∷ ids) r none h e =
      ground (arith, named i h.0, str_eq_iff (name_of g i) r, contains-names ids r none h.1 e)
  contains-names (i ∷ ids) r (some c) h e =
      rw (← id_eq g w (name_of g i) r i c (named i h.0) e)
        (rw (contains-names ids r (some c) h.1 e))

  common-Below :
      (a b : ℕ) → Below (length g.id_to_pubkey) (intersect (row g.follows a) (row g.follows b))
  common-Below a b =
      let common =
        intersect_lem (row g.follows a) (row g.follows b) (w.follows_sorted a)
          (w.follows_sorted b) in
      Below-of_members _ (intersect (row g.follows a) (row g.follows b))
        (λ v m. Below-member _ v (row g.follows a) (w.follows_below a) (ground (arith, common.1 v)))

  common_cases :
      (p q r : Str) (o s t : Option ℕ)
      → lookup p g.pubkey_to_id ≡ o
      → lookup q g.pubkey_to_id ≡ s
      → lookup r g.pubkey_to_id ≡ t
      → contains r (common_follows g p q) ≡ linked (row g.follows) o t && linked (row g.follows) s t
  unfolding common_follows
  common_cases p q r none s t ep eq er = ground arith
  common_cases p q r (some a) none t ep eq er = ground arith
  common_cases p q r (some a) (some b) none ep eq er =
      ground (arith, contains-names _ r none (common-Below a b) er)
  common_cases p q r (some a) (some b) (some c) ep eq er = ground (
    arith,
    contains-names _ r (some c) (common-Below a b) er,
    (intersect_lem (row g.follows a) (row g.follows b) (w.follows_sorted a) (w.follows_sorted b)).1
        c,
  )

  -- In a well-formed graph, a key is among the common follows of two keys exactly if both
  -- follow it.
  pub common_follows_lem :
      (p q r : Str) → contains r (common_follows g p q) ≡ follows g p r && follows g q r
  unfolding follows
  common_follows_lem p q r =
      common_cases p q r (lookup p g.pubkey_to_id) (lookup q g.pubkey_to_id)
        (lookup r g.pubkey_to_id) refl refl refl

  has_edge-eq : (o s : Option ℕ) → has_edge g o s ≡ linked (mute_row g) o s
  unfolding has_edge
  has_edge-eq none s = refl
  has_edge-eq (some a) none = refl
  has_edge-eq (some a) (some b) = elim (Option-cases (lookup a g.mutes)) [
    | inl e ↦ ground arith
    | inr (l, e) ↦ ground (arith, binary_search-member l.ids b (w.mutes_sorted a l e))
  ]

  Below-keep : (f : ℕ → Bool) (a : ℕ) → Below (length g.id_to_pubkey) (keep f (row g.follows a))
  Below-keep f a = Below-of_members _ (keep f (row g.follows a)) (λ v m.
      Below-member _ v (row g.follows a) (w.follows_below a)
        (ground (arith, member-keep f v (row g.follows a))))

  muters_cases :
      (p r : Str) (o s t : Option ℕ)
      → lookup p g.pubkey_to_id ≡ o
      → lookup r g.pubkey_to_id ≡ t
      → contains r (muters_of g o s) ≡ linked (row g.follows) o t && linked (mute_row g) t s
  muters_cases p r none s none ep er = refl
  muters_cases p r none s (some c) ep er = refl
  muters_cases p r (some a) s none ep er =
      contains-names (keep (λ id. has_edge g (some id) s) (row g.follows a)) r none
        (Below-keep (λ id. has_edge g (some id) s) a) er
  muters_cases p r (some a) s (some c) ep er =
      contains-names (keep (λ id. has_edge g (some id) s) (row g.follows a)) r (some c)
        (Below-keep (λ id. has_edge g (some id) s) a) er
      ∙ (member-keep (λ id. has_edge g (some id) s) c (row g.follows a)
          ∙ ap (λ x. member c (row g.follows a) && x) (has_edge-eq (some c) s))

  -- In a well-formed graph, the evidence about two keys says whether the first mutes the
  -- second and whether the second mutes the first, and its followed muters are exactly the
  -- keys that the first follows and that mute the second.
  pub mute_evidence_lem :
      (p q r : Str)
      → ((mute_evidence g p q).source_mutes_target ≡ mutes g p q)
        × ((mute_evidence g p q).target_mutes_source ≡ mutes g q p)
        × (contains r (mute_evidence g p q).followed_muters ≡ follows g p r && mutes g r q)
  unfolding mute_evidence follows mutes
  mute_evidence_lem p q r = (
    has_edge-eq (lookup p g.pubkey_to_id) (lookup q g.pubkey_to_id),
    has_edge-eq (lookup q g.pubkey_to_id) (lookup p g.pubkey_to_id),
    muters_cases p r (lookup p g.pubkey_to_id) (lookup q g.pubkey_to_id) (lookup r g.pubkey_to_id)
        refl refl,
  )

  names_all :
      (ids : List ℕ)
      → Below (length g.id_to_pubkey) ids
      → filter_map (get_elem? g.id_to_pubkey) ids ≡ map (name_of g) ids
  names_all [] h = refl
  names_all (i ∷ ids) h =
      let (p, e) = named_id g w i h.0 in
      ground (arith, (w.named p i).0 e, get_or_of_get_elem? g.id_to_pubkey i p, names_all ids h.1)

  -- In a well-formed graph, a page of follows is the slice of the whole list of follows that
  -- starts at the offset and is no longer than the limit, with the length of the whole list;
  -- there is none where there is no whole list.
  pub get_follows_page_lem :
      (p : Str) (offset limit : ℕ)
      → get_follows_page g p offset limit
        ≡ Option.map
            (λ (all : List Str). (take limit (drop offset all), length all))
            (get_follows g p)
  unfolding get_follows_page get_follows
  get_follows_page_lem p offset limit = elim (Option-cases (lookup p g.pubkey_to_id)) [
    | inl e ↦ ground arith
    | inr (a, e) ↦ elim (Option-cases (get_elem? g.follows a)) [
      | inl none_there ↦ ground arith
      | inr (ids, found) ↦
          let here : row g.follows a ≡ ids = row_of_get_elem? g.follows a ids found in
          let below : Below (length g.id_to_pubkey) ids = rw (← here) (w.follows_below a) in
          ground (
            arith,
            names_all ids below,
            map-slice (name_of g) offset limit ids,
            length-map (name_of g) ids,
          )
    ]
  ]
