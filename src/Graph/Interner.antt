-- ===== src/Graph/Interner.antt =====
-- src/graph/interner.rs. An `Arc<str>` is an address with the text there; the heap that allocates
-- them is kept beside the set, and an address is a place in it.
pub mod Shared
use nostr_wot_oracle.Prelude.{
  ℕ, ◌≡◌, List, [], ◌∷◌, ◌++◌, Bool, Option, none, some, arith, is_some, length, is_empty,
  Option-cases, inl, inr, if◌then◌else◌,
}
use nostr_wot_oracle.Prelude.Str.{Str, str_eq, str_eq_iff}

pub record Arc : Type 0 where
  pub address : ℕ
  pub text : Str

-- `DashMap<Arc<str>, ()>`: its keys, no two with one text.
pub record PubkeyInterner : Type 0 where
  pub interned : List Arc
  pub heap : List Str

abbrev pub new : PubkeyInterner
new = record { interned = []; heap = [] }

-- The key that the map holds for a text: `interned.get(s)` and `entry.key()`.
abbrev pub find_key : Str → List Arc → Option Arc
find_key s [] = none
find_key s (a ∷ arcs) = if str_eq a.text s then some a else find_key s arcs

-- `Arc::from(s)`
abbrev pub arc_from : PubkeyInterner → Str → PubkeyInterner × Arc
arc_from t s = (record t { heap = t.heap ++ s ∷ [] }, record { address = length t.heap; text = s })

-- `interned.entry(arc).or_insert(())`: an entry that is there keeps its own key.
abbrev pub or_insert : Arc → PubkeyInterner → PubkeyInterner
or_insert arc t = elim (find_key arc.text t.interned) [
  | some held ↦ t
  | none ↦ record t { interned = arc ∷ t.interned }
]

-- Where a call of `intern` is: before the fast path, with a new allocation, after the entry, or
-- back with its result.
pub data Call : Type 0 where
  called : Str → Call
  allocated entered : Arc → Call
  returned : Arc → Call

-- One atomic access to the map, with what the call does until the next.
unfoldable pub advance : PubkeyInterner → Call → PubkeyInterner × Call
advance t (called s) = elim (find_key s t.interned) [
  | some held ↦ (t, returned held)
  | none ↦ let (t', arc) = arc_from t s in (t', allocated arc)
]
advance t (allocated arc) = (or_insert arc t, entered arc)
advance t (entered arc) = elim (find_key arc.text t.interned) [
  | some held ↦ (t, returned held)
  | none ↦ (t, returned arc)
]
advance t (returned arc) = (t, returned arc)

-- `intern` when no other call runs.
unfoldable pub intern : PubkeyInterner → Str → PubkeyInterner × Arc
intern t s = elim (find_key s t.interned) [
  | some held ↦ (t, held)
  | none ↦
      let (t', arc) = arc_from t s in
      let t'' = or_insert arc t' in
      elim (find_key s t''.interned) [ some held ↦ (t'', held) | none ↦ (t'', arc) ]
]

unfoldable pub len : PubkeyInterner → ℕ
len t = length t.interned

unfoldable pub is_unused : PubkeyInterner → Bool
is_unused t = is_empty t.interned

pub text-find_key : (s : Str) (arcs : List Arc) (a : Arc) → find_key s arcs ≡ some a → a.text ≡ s
text-find_key s [] a h = ground arith
text-find_key s (b ∷ arcs) a h = ground (arith, text-find_key s arcs a, str_eq_iff b.text s)

pub text-intern : (t : PubkeyInterner) (s : Str) → (intern t s).1.text ≡ s
unfolding intern
text-intern t s = elim (Option-cases (find_key s t.interned)) [
  | inl new ↦ ground (arith, text-find_key s ((arc_from t s).1 ∷ t.interned))
  | inr (a, e) ↦ ground (arith, text-find_key s t.interned a e)
]
