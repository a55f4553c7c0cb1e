-- ===== src/Sync/Winners.antt =====
-- The map of winners that `persist_and_apply` of src/sync/ingestion.rs fills.
use nostr_wot_oracle.Prelude.{
  ◌⊎◌, ℕ, suc, ◌+◌, ◌-◌, ◌<◌, ◌≡◌, ◌∙◌, sym, ap, List, [], ◌∷◌, true, false, Option, none, some,
  arith, refl, inl, inr, Bool-cases, ◌==◌, nat_eq, get_elem?, ltb,
}
use mathlib.Core.Path.{subst}
use nostr_wot_oracle.Prelude.Str.{Str}
use nostr_wot_oracle.Prelude.Dict.{Dict, lookup, insert, lookup-insert}
use nostr_wot_oracle.Graph.Events.{accepts_event, accepts_event_trans, accepts_event_asymm}
use nostr_wot_oracle.Sync.Events.{ListUpdate}
use nostr_wot_oracle.Sync.Persist.{
  supersedes, winners_loop, next_winner, update_key, key_eq, key_eq_iff,
}

abbrev pub key : ListUpdate → ℕ × Str
key u = (u.kind, u.pubkey)

-- The order of the selection is the order in which the graph accepts events.
supersedes_eq :
    (u v : ListUpdate)
    → supersedes u v
      ≡ accepts_event (some v.created_at) (some v.event_id) (some u.created_at) (some u.event_id)
unfolding supersedes accepts_event
supersedes_eq u v = refl

supersedes_trans :
    (u v w : ListUpdate) → supersedes u v ≡ true → supersedes v w ≡ true → supersedes u w ≡ true
supersedes_trans u v w h k =
    supersedes_eq u w
    ∙ accepts_event_trans w.created_at v.created_at u.created_at (some w.event_id) (some v.event_id)
        (some u.event_id) (sym (supersedes_eq v w) ∙ k) (sym (supersedes_eq u v) ∙ h)

supersedes_irrefl : (u : ListUpdate) → supersedes u u ≡ false
supersedes_irrefl u = elim (Bool-cases (supersedes u u)) [
  | inr loses ↦ loses
  | inl wins ↦
      supersedes_eq u u
      ∙ accepts_event_asymm u.created_at u.created_at (some u.event_id) (some u.event_id)
          (sym (supersedes_eq u u) ∙ wins)
]

-- What an entry of the map means after `n` updates: none of them has the key, or the slot is that
-- of an update with the key that none of them supersedes.
abbrev Best : List ListUpdate → ℕ → ℕ × Str → Option ℕ → Type 0
Best us n k none =
    (j : ℕ) (u : ListUpdate) → j < n → get_elem? us j ≡ some u → key_eq (key u) k ≡ false
Best us n k (some slot) =
    (v : ListUpdate) × (get_elem? us slot ≡ some v)
    × (key_eq (key v) k ≡ true)
    × ((j : ℕ) (u : ListUpdate)
        → j < n
        → get_elem? us j ≡ some u
        → key_eq (key u) k ≡ true
        → supersedes u v ≡ false)

module _ (us : List ListUpdate) where
  -- The update itself, or one before it.
  last_or_before :
      (n j : ℕ) (u v : ListUpdate)
      → get_elem? us n ≡ some v
      → get_elem? us j ≡ some u
      → j < suc n
      → (j < n) ⊎ (u ≡ v)
  last_or_before n j u v here e h = elim (Bool-cases (j == n)) [
    | inl same ↦ let at : j ≡ n = ground arith in inr (ground (arith, ap (get_elem? us) at))
    | inr differ ↦ inl (ground arith)
  ]

  same_key :
      (n : ℕ) (update : ListUpdate) (o : Option ℕ)
      → get_elem? us n ≡ some update
      → Best us n (key update) o
      → Best us (suc n) (key update) (some (next_winner us n update o))
  same_key n update none here best = (
    update,
    here,
    (key_eq_iff (key update) (key update)).1 refl,
    λ j u h e k. elim (last_or_before n j u update here e h) [
      | inl before ↦ absurd (ground (arith, best j u before e))
      | inr same ↦ rw same (supersedes_irrefl update)
    ],
  )
  same_key n update (some slot) here (v, there, k, best) = elim (Bool-cases (supersedes update v)) [
    | inl better ↦
        let next : next_winner us n update (some slot) ≡ n = ground (arith, there) in
        subst (λ x. Best us (suc n) (key update) (some x)) (sym next)
          (
            update,
            here,
            (key_eq_iff (key update) (key update)).1 refl,
            λ j u h e q. elim (last_or_before n j u update here e h) [
              | inl before ↦ elim (Bool-cases (supersedes u update)) [
                | inr loses ↦ loses
                | inl wins ↦
                    let a = best j u before e q in
                    let b = supersedes_trans u update v wins better in cc
              ]
              | inr same ↦ rw same (supersedes_irrefl update)
            ],
          )
    | inr worse ↦
        let next : next_winner us n update (some slot) ≡ slot = ground (arith, there) in
        subst (λ x. Best us (suc n) (key update) (some x)) (sym next)
          (
            v,
            there,
            k,
            λ j u h e q. elim (last_or_before n j u update here e h) [
              | inl before ↦ best j u before e q
              | inr same ↦ rw same worse
            ],
          )
  ]

  other_key :
      (n : ℕ) (update : ListUpdate) (k : ℕ × Str) (o : Option ℕ)
      → get_elem? us n ≡ some update
      → key_eq (key update) k ≡ false
      → Best us n k o
      → Best us (suc n) k o
  other_key n update k none here differ best = λ j u h e.
      elim (last_or_before n j u update here e h) [
        | inl before ↦ best j u before e
        | inr same ↦ rw same differ
      ]
  other_key n update k (some slot) here differ (v, there, q, best) = (
    v,
    there,
    q,
    λ j u h e p. elim (last_or_before n j u update here e h) [
      | inl before ↦ best j u before e p
      | inr same ↦ absurd (ground (arith, ap key same))
    ],
  )

  -- One turn of the loop.
  turn :
      (n : ℕ) (update : ListUpdate) (winners : Dict (ℕ × Str) ℕ)
      → get_elem? us n ≡ some update
      → ((k : ℕ × Str) → Best us n k (lookup k winners))
      → (k : ℕ × Str)
      → Best us (suc n) k (
          lookup k
            (insert (key update) (next_winner us n update (lookup (key update) winners)) winners))
  turn n update winners here best k =
      let slot = next_winner us n update (lookup (key update) winners) in
      subst (Best us (suc n) k) (sym (lookup-insert (key update) k slot winners))
        (elim (Bool-cases (key_eq (key update) k)) [
          | inl same ↦
              let equal : key update ≡ k = (key_eq_iff (key update) k).0 same in
              rw same (
                subst (λ x. Best us (suc n) x (some slot)) equal
                  (same_key n update (lookup (key update) winners) here (best (key update))))
          | inr differ ↦ rw differ (other_key n update k (lookup k winners) here differ (best k))
        ])

  loop :
      (n : ℕ) (rest : List ListUpdate) (winners : Dict (ℕ × Str) ℕ)
      → ((i : ℕ) → get_elem? us (n + i) ≡ get_elem? rest i)
      → ((k : ℕ × Str) → Best us n k (lookup k winners))
      → (m : ℕ) × ((i : ℕ) → get_elem? us (m + i) ≡ none)
        × ((k : ℕ × Str) → Best us m k (lookup k (winners_loop us n rest winners)))
  unfolding winners_loop
  loop n [] winners tail best = (n, tail, best)
  loop n (update ∷ rest) winners tail best =
      loop (suc n) rest
        (insert (key update) (next_winner us n update (lookup (key update) winners)) winners)
        (λ i. let e : suc n + i ≡ n + suc i = omega arith in ap (get_elem? us) e ∙ tail (suc i))
        (turn n update winners (let e : n ≡ n + 0 = omega arith in ap (get_elem? us) e ∙ tail 0)
          best)

-- What the entry of a key means in the end.
abbrev pub Wins : List ListUpdate → ℕ × Str → Option ℕ → Type 0
Wins us k none = (j : ℕ) (u : ListUpdate) → get_elem? us j ≡ some u → key_eq (key u) k ≡ false
Wins us k (some slot) =
    (v : ListUpdate) × (get_elem? us slot ≡ some v)
    × (key_eq (key v) k ≡ true)
    × ((j : ℕ) (u : ListUpdate)
        → get_elem? us j ≡ some u
        → key_eq (key u) k ≡ true
        → supersedes u v ≡ false)

-- For any sequence of updates and any key of kind and author, the map of winners has no entry if
-- no update has the key, and otherwise the place of an update that has the key and that no
-- update with the key supersedes.
pub winners_loop-Wins :
    (us : List ListUpdate) (k : ℕ × Str) → Wins us k (lookup k (winners_loop us 0 us []))
unfolding lookup
winners_loop-Wins us k =
    let (m, past, best) =
      loop us 0 us [] (λ i. let e : 0 + i ≡ i = omega arith in ap (get_elem? us) e)
        (λ x j u h e. absurd (omega arith)) in
    go m past (lookup k (winners_loop us 0 us [])) (best k)
  where
    inside :
        (m j : ℕ) (u : ListUpdate)
        → ((i : ℕ) → get_elem? us (m + i) ≡ none)
        → get_elem? us j ≡ some u
        → j < m
    inside m j u past e = elim (Bool-cases (ltb j m)) [
      | inl small ↦ ground arith
      | inr large ↦
          let back : m + (j - m) ≡ j = ground arith in
          let gone = past (j - m) in let same = ap (get_elem? us) back in absurd (ground arith)
    ]

    go :
        (m : ℕ)
        → ((i : ℕ) → get_elem? us (m + i) ≡ none)
        → (o : Option ℕ) → Best us m k o
        → Wins us k o
    go m past none best = λ j u e. best j u (inside m j u past e) e
    go m past (some slot) (v, there, q, best) =
        (v, there, q, λ j u e p. best j u (inside m j u past e) e p)
