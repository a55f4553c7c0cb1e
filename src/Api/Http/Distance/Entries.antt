-- ===== src/Api/Http/Distance/Entries.antt =====
-- Entries of the cache of src/cache.rs beside what the search of src/graph/bfs.rs answers now, as
-- `get_distance` of src/api/http.rs reads and writes them.
use nostr_wot_oracle.Prelude.{
  ◌≤◌, ◌≡◌, ◌∙◌, Bool, some, arith, refl, sym, ap, Option-cases, inl, inr,
}
use mathlib.Core.Path.{subst}
use nostr_wot_oracle.Prelude.Str.{str_key}
use nostr_wot_oracle.Prelude.Dict.{lookup}
use nostr_wot_oracle.Graph.Store.Types.{WotGraph}
use nostr_wot_oracle.Graph.Store.Nodes.{get_node_id}
use nostr_wot_oracle.Graph.Store.Invariant.{WellFormed}
use nostr_wot_oracle.Graph.Store.Invariant.Revision.{SameTopology}
use nostr_wot_oracle.Graph.Bfs.Types.{DistanceQuery, DistanceResult}
use nostr_wot_oracle.Graph.Bfs.Distance.{compute_distance}
use nostr_wot_oracle.Graph.Bfs.Reads.{topology_of, topology_of_lem, compute_distance-About}
use nostr_wot_oracle.Cache
use nostr_wot_oracle.Cache.{CacheKey, CachedDistance, Moka, QueryCache, from_result, to_result}
use nostr_wot_oracle.Cache.Laws.{to_result-from_result}
use nostr_wot_oracle.Cache.Laws.History.{get_during_hit}
use nostr_wot_oracle.Api.Http.Types.{DistanceQueryParams}
use nostr_wot_oracle.Api.Http.Distance.{query_of, key_of, cached_answer, remember}

-- The entry that a query makes.
abbrev pub entry_of : WotGraph → DistanceQuery → CachedDistance
entry_of g query = from_result (compute_distance g query) g g.revision

entry_of-topology :
    (g : WotGraph) (query : DistanceQuery) → entry_of (topology_of g) query ≡ entry_of g query
unfolding from_result
entry_of-topology g query =
    ap (λ (r : DistanceResult). from_result r g g.revision) (topology_of_lem g query)

-- What the entry of a key is for, in a graph.
pub record Computed (g : WotGraph) (key : CacheKey) (e : CachedDistance) : Type 0 where
  pub query : DistanceQuery
  pub from_id : lookup query.from g.pubkey_to_id ≡ some key.from_id
  pub to_id : lookup query.to g.pubkey_to_id ≡ some key.to_id
  pub max_hops : query.max_hops ≡ key.max_hops
  pub include_bridges : query.include_bridges ≡ key.include_bridges
  pub stored : e ≡ entry_of g query

entry_of-current :
    (g : WotGraph) (query : DistanceQuery) (e : CachedDistance)
    → e ≡ entry_of g query
    → e.revision ≤ g.revision
unfolding from_result
entry_of-current g query e stored = omega (arith, ap (λ (x : CachedDistance). x.revision) stored)

-- Only the topology and the revision count.
Computed-topology :
    (g h : WotGraph) (key : CacheKey) (e : CachedDistance)
    → topology_of h ≡ topology_of g
    → Computed g key e
    → Computed h key e
Computed-topology g h key e same c = record {
  query = c.query;
  from_id = subst (λ x. lookup c.query.from x.pubkey_to_id ≡ some key.from_id) (sym same) c.from_id;
  to_id = subst (λ x. lookup c.query.to x.pubkey_to_id ≡ some key.to_id) (sym same) c.to_id;
  max_hops = c.max_hops;
  include_bridges = c.include_bridges;
  stored =
      c.stored
      ∙ sym (entry_of-topology g c.query)
      ∙ ap (λ x. entry_of x c.query) (sym same)
      ∙ entry_of-topology h c.query;
}

topology_of_same :
    (g h : WotGraph) → SameTopology g h → h.revision ≡ g.revision → topology_of h ≡ topology_of g
topology_of_same g h s r = rw (r, s.ids, s.pubkeys, s.follows, s.followers) refl

-- No entry is of a later revision, and those of the graph's own are what the search would answer.
abbrev pub Coherent : {moka : Moka} → QueryCache moka → WotGraph → Type 0
Coherent {moka} c g =
    (key : CacheKey) (e : CachedDistance)
    → moka.read c.entries key ≡ some e
    → (e.revision ≤ g.revision) × (e.revision ≡ g.revision → Computed g key e)

module _ (moka : Moka) where
  -- Entries stay right when the graph changes, since a change of topology takes a revision.
  pub Coherent-changed :
      (c : QueryCache moka) (g h : WotGraph)
      → Coherent c g
      → g.revision ≤ h.revision
      → (h.revision ≡ g.revision → SameTopology g h)
      → Coherent c h
  Coherent-changed c g h right grows same key e found =
      let (older, current) = right key e found in
      (
        omega (arith, older),
        λ at.
            let unchanged : h.revision ≡ g.revision = omega (arith, older) in
            Computed-topology g h key e (topology_of_same g h (same unchanged) unchanged)
              (current (omega (arith, older))),
      )

  Coherent-insert :
      (c : QueryCache moka) (g : WotGraph) (key : CacheKey) (query : DistanceQuery)
      → lookup query.from g.pubkey_to_id ≡ some key.from_id
      → lookup query.to g.pubkey_to_id ≡ some key.to_id
      → query.max_hops ≡ key.max_hops
      → query.include_bridges ≡ key.include_bridges
      → Coherent c g
      → Coherent (Cache.insert moka c key (compute_distance g query) g g.revision) g
  unfolding Cache.insert
  Coherent-insert c g key query x y hops bridges right k e found =
      elim (moka.read-write c.entries k key (entry_of g query) e (ground arith)) [
        | inl (same, stored) ↦ (
          entry_of-current g query e stored,
          λ at.
              subst (λ j. Computed g j e) (sym same)
                (record {
                  query = query;
                  from_id = x;
                  to_id = y;
                  max_hops = hops;
                  include_bridges = bridges;
                  stored = stored;
                }),
        )
        | inr (other, old) ↦ right k e old
      ]

  pub Coherent-remember :
      (c : QueryCache moka) (g : WotGraph) (params : DistanceQueryParams)
      → Coherent c g
      → Coherent
          (remember moka c
            (key_of
              (get_node_id g params.from)
              (get_node_id g params.to)
              params.max_hops
              params.include_bridges)
            (compute_distance g (query_of params))
            g
            g.revision)
          g
  unfolding remember
  Coherent-remember c g params right = elim (Option-cases (get_node_id g params.from)) [
    | inl x ↦ rw x right
    | inr (i, x) ↦ elim (Option-cases (get_node_id g params.to)) [
      | inl y ↦ rw (x, y) right
      | inr (j, y) ↦
          let key : CacheKey = record {
            from_id = i;
            to_id = j;
            max_hops = params.max_hops;
            include_bridges = params.include_bridges;
          } in
          rw (x, y) (Coherent-insert c g key (query_of params) x y refl refl right)
    ]
  ]

  hit-current :
      (c : QueryCache moka) (g : WotGraph) (key : CacheKey) (query : DistanceQuery)
      (d : DistanceResult)
      → WellFormed g
      → Coherent c g
      → lookup query.from g.pubkey_to_id ≡ some key.from_id
      → lookup query.to g.pubkey_to_id ≡ some key.to_id
      → query.max_hops ≡ key.max_hops
      → query.include_bridges ≡ key.include_bridges
      → Cache.get moka c key g ≡ some d
      → d ≡ compute_distance g query
  unfolding Cache.get
  hit-current c g key query d w right x y hops bridges h =
      let (e, found, at, again, read) = get_during_hit moka c key g g g g g d h in
      let computed = (right key e found).1 at in
      let q = computed.query in
      let from : q.from ≡ query.from = ground (
        arith,
        (w.named q.from key.from_id).0 computed.from_id,
        (w.named query.from key.from_id).0 x,
      ) in
      let to : q.to ≡ query.to =
        ground
          (arith, (w.named q.to key.to_id).0 computed.to_id, (w.named query.to key.to_id).0 y) in
      let same : q ≡ query =
        rw (from, to, computed.max_hops ∙ sym hops, computed.include_bridges ∙ sym bridges) refl in
      let about = compute_distance-About g w query in
      let result = compute_distance g query in
      let stored : e ≡ entry_of g query = computed.stored ∙ ap (entry_of g) same in
      let back =
        to_result-from_result g w result key.from_id key.to_id g.revision
          (subst (λ p. lookup p g.pubkey_to_id ≡ some key.from_id) (sym about.from_is) x)
          (subst (λ p. lookup p g.pubkey_to_id ≡ some key.to_id) (sym about.to_is) y)
          about.bridges_known in
      let joined : some d ≡ some result =
        sym read ∙ (ap (λ x. to_result x g g g key.from_id key.to_id) stored ∙ back) in
      cc

  -- A cached answer is that of the search.
  pub cached_answer-current :
      (c : QueryCache moka) (g : WotGraph) (params : DistanceQueryParams) (bypass : Bool)
      (d : DistanceResult)
      → WellFormed g
      → Coherent c g
      → cached_answer moka g c bypass (
          key_of
            (get_node_id g params.from)
            (get_node_id g params.to)
            params.max_hops
            params.include_bridges)
        ≡ some d
      → d ≡ compute_distance g (query_of params)
  unfolding cached_answer
  cached_answer-current c g params bypass d w right h =
      elim (Option-cases (get_node_id g params.from)) [
        | inl x ↦ absurd (ground arith)
        | inr (i, x) ↦ elim (Option-cases (get_node_id g params.to)) [
          | inl y ↦ absurd (ground arith)
          | inr (j, y) ↦
              let key : CacheKey = record {
                from_id = i;
                to_id = j;
                max_hops = params.max_hops;
                include_bridges = params.include_bridges;
              } in
              hit-current c g key (query_of params) d w right x y refl refl (ground arith)
        ]
      ]
