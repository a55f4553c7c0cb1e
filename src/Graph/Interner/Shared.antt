-- ===== src/Graph/Interner/Shared.antt =====
-- Concurrent calls of `intern` of src/graph/interner.rs, in any order of their accesses to the map.
use nostr_wot_oracle.Prelude.{
  ℕ, ◌≡◌, ◌≤◌, ◌↔◌, ◌+◌, List, [], ◌∷◌, some, arith, length, get_elem?, ◌==◌, Option-cases,
  Bool-cases, inl, inr, if◌then◌else◌, refl, sym, max, nat_eq, get_elem?-push, get_elem?_lt,
}
use mathlib.Core.Path.{subst}
use nostr_wot_oracle.Prelude.Str.{Str, str_eq_iff}
use nostr_wot_oracle.Graph.Interner.{
  Arc, PubkeyInterner, new, intern, find_key, arc_from, or_insert, Call, called, allocated, entered,
  returned, advance, text-find_key,
}

-- One interner and numbered calls.
pub record System : Type 0 where
  pub shared : PubkeyInterner
  pub calls : ℕ → Call

abbrev pub step : ℕ → System → System
step i s =
    let (t, c) = advance s.shared (s.calls i) in
    record { shared = t; calls = λ j. if j == i then c else s.calls j }

-- The calls take their steps in the order of the list.
abbrev pub run : List ℕ → System → System
run [] s = s
run (i ∷ order) s = run order (step i s)

abbrev pub all_called : (ℕ → Str) → System
all_called texts = record { shared = new; calls = λ i. called (texts i) }

-- The heap has the text of the allocation at its address.
abbrev Live : PubkeyInterner → Arc → Type 0
Live t a = get_elem? t.heap a.address ≡ some a.text

abbrev AllLive : PubkeyInterner → Type 0
AllLive t = (s : Str) (a : Arc) → find_key s t.interned ≡ some a → Live t a

-- What a call for the text `s` knows.
abbrev CallOk : PubkeyInterner → Str → Call → Type 0
CallOk t s (called r) = r ≡ s
CallOk t s (allocated a) = (a.text ≡ s) × Live t a
CallOk t s (entered a) = (b : Arc) × (a.text ≡ s) × (find_key s t.interned ≡ some b)
CallOk t s (returned a) = find_key s t.interned ≡ some a

-- Allocations and keys stay.
record Grown (t t' : PubkeyInterner) : Type 0 where
  heap_kept : (i : ℕ) (x : Str) → get_elem? t.heap i ≡ some x → get_elem? t'.heap i ≡ some x
  keys_kept : (s : Str) (a : Arc) → find_key s t.interned ≡ some a → find_key s t'.interned ≡ some a

CallOk-Grown :
    (t t' : PubkeyInterner) (s : Str) (c : Call) → Grown t t' → CallOk t s c → CallOk t' s c
CallOk-Grown t t' s (called r) g h = h
CallOk-Grown t t' s (allocated a) g h = (h.0, g.heap_kept a.address a.text h.1)
CallOk-Grown t t' s (entered a) g (b, same, held) = (b, same, g.keys_kept s b held)
CallOk-Grown t t' s (returned a) g h = g.keys_kept s a h

Grown-refl : (t : PubkeyInterner) → Grown t t
Grown-refl t = record { heap_kept = λ i x h. h; keys_kept = λ s a h. h }

-- One step of a call.
record Stepped (t : PubkeyInterner) (s : Str) (r : PubkeyInterner × Call) : Type 0 where
  grown : Grown t r.0
  live : AllLive r.0
  call_ok : CallOk r.0 s r.1

module _ (t : PubkeyInterner) (s : Str) (live : AllLive t) where
  arc_from-Grown : (s : Str) → Grown t (arc_from t s).0
  arc_from-Grown s = record {
    heap_kept = λ i x h. ground (arith, get_elem?-push t.heap s i, get_elem?_lt t.heap i x h);
    keys_kept = λ r a h. h;
  }

  or_insert-Grown : (a : Arc) → Grown t (or_insert a t)
  or_insert-Grown a = elim (Option-cases (find_key a.text t.interned)) [
    | inr (held, e) ↦ rw (e, or_insert) (Grown-refl t)
    | inl fresh ↦
        rw (fresh, or_insert)
          (record {
            heap_kept = λ i x h. h;
            keys_kept = λ r b h. ground (arith, str_eq_iff a.text r);
          })
  ]

  or_insert-AllLive : (a : Arc) → Live t a → AllLive (or_insert a t)
  or_insert-AllLive a here r b h = elim (Option-cases (find_key a.text t.interned)) [
    | inr (held, e) ↦ ground (arith, live r b)
    | inl fresh ↦ ground (arith, live r b)
  ]

  or_insert-holds : (a : Arc) → (b : Arc) × (find_key a.text (or_insert a t).interned ≡ some b)
  or_insert-holds a = elim (Option-cases (find_key a.text t.interned)) [
    | inr (held, e) ↦ (held, ground arith)
    | inl fresh ↦ (a, ground (arith, str_eq_iff a.text a.text))
  ]

  advance-Stepped : (c : Call) → CallOk t s c → Stepped t s (advance t c)
  unfolding advance
  advance-Stepped (called r) h = elim (Option-cases (find_key r t.interned)) [
    | inr (held, e) ↦
        rw (e, advance)
          (record {
            grown = Grown-refl t;
            live = live;
            call_ok = subst (λ x. find_key x t.interned ≡ some held) h e;
          })
    | inl fresh ↦
        rw (fresh, advance)
          (record {
            grown = arc_from-Grown r;
            live = λ x a e. (arc_from-Grown r).heap_kept a.address a.text (live x a e);
            call_ok = (h, ground (arith, get_elem?-push t.heap r (length t.heap)));
          })
  ]
  advance-Stepped (allocated a) h = record {
    grown = or_insert-Grown a;
    live = or_insert-AllLive a h.1;
    call_ok =
        let (b, held) = or_insert-holds a in
        (b, h.0, subst (λ r. find_key r (or_insert a t).interned ≡ some b) h.0 held);
  }
  advance-Stepped (entered a) (b, same, held) =
      let found : find_key a.text t.interned ≡ some b =
        subst (λ x. find_key x t.interned ≡ some b) (sym same) held in
      rw (found, advance) (record { grown = Grown-refl t; live = live; call_ok = held })
  advance-Stepped (returned a) h = record { grown = Grown-refl t; live = live; call_ok = h }

module _ (texts : ℕ → Str) where
  record Ok (s : System) : Type 0 where
    live : AllLive s.shared
    calls_ok : (i : ℕ) → CallOk s.shared (texts i) (s.calls i)

  all_called-Ok : Ok (all_called texts)
  all_called-Ok = record { live = λ s a h. ground arith; calls_ok = λ i. refl }

  step-Ok : (i : ℕ) (s : System) → Ok s → Ok (step i s)
  step-Ok i s ok =
      let moved = advance-Stepped s.shared (texts i) ok.live (s.calls i) (ok.calls_ok i) in
      let (t, c) = advance s.shared (s.calls i) in
      record {
        live = moved.live;
        calls_ok = λ j. elim (Bool-cases (j == i)) [
          | inl same ↦
              rw same (
                subst (λ k. CallOk t (texts k) c) (sym ((nat_eq.beq_iff j i).0 same)) moved.call_ok)
          | inr other ↦
              rw other (CallOk-Grown s.shared t (texts j) (s.calls j) moved.grown (ok.calls_ok j))
        ];
      }

  run-Ok : (order : List ℕ) (s : System) → Ok s → Ok (run order s)
  run-Ok [] s ok = ok
  run-Ok (i ∷ order) s ok = run-Ok order (step i s) (step-Ok i s ok)

  returned-shares :
      (order : List ℕ) (i j : ℕ) (a b : Arc)
      → (run order (all_called texts)).calls i ≡ returned a
      → (run order (all_called texts)).calls j ≡ returned b
      → (a.text ≡ texts i) × ((a.address ≡ b.address) ↔ (texts i ≡ texts j))
  returned-shares order i j a b first second =
      let s = run order (all_called texts) in
      let ok = run-Ok order (all_called texts) all_called-Ok in
      let held : find_key (texts i) s.shared.interned ≡ some a =
        subst (CallOk s.shared (texts i)) first (ok.calls_ok i) in
      let other : find_key (texts j) s.shared.interned ≡ some b =
        subst (CallOk s.shared (texts j)) second (ok.calls_ok j) in
      let named = text-find_key (texts i) s.shared.interned a held in
      let other_named = text-find_key (texts j) s.shared.interned b other in
      let at = ok.live (texts i) a held in
      let other_at = ok.live (texts j) b other in (named, ground arith)

-- The steps that a call has yet to take, at most.
abbrev steps_left : Call → ℕ
steps_left (called s) = 3
steps_left (allocated a) = 2
steps_left (entered a) = 1
steps_left (returned a) = 0

-- How often a call takes a step.
abbrev pub turns : ℕ → List ℕ → ℕ
turns i [] = 0
turns i (j ∷ order) = if i == j then 1 + turns i order else turns i order

advance-steps_left :
    (t : PubkeyInterner) (c : Call) → steps_left (advance t c).1 + 1 ≤ max (steps_left c) 1
unfolding advance
advance-steps_left t (called s) = ground (arith, Option-cases (find_key s t.interned))
advance-steps_left t (allocated a) = omega arith
advance-steps_left t (entered a) = ground (arith, Option-cases (find_key a.text t.interned))
advance-steps_left t (returned a) = omega arith

is_back : (c : Call) → steps_left c ≤ 0 → (a : Arc) × (c ≡ returned a)
is_back (called s) h = absurd (omega arith)
is_back (allocated a) h = absurd (omega arith)
is_back (entered a) h = absurd (omega arith)
is_back (returned a) h = (a, refl)

run_returns_lem :
    (i : ℕ) (order : List ℕ) (s : System)
    → steps_left (s.calls i) ≤ turns i order
    → (a : Arc) × ((run order s).calls i ≡ returned a)
run_returns_lem i [] s h = is_back (s.calls i) h
run_returns_lem i (j ∷ order) s h = run_returns_lem i order (step j s) (elim (Bool-cases (i == j)) [
  | inl same ↦
      let left : steps_left (s.calls j) ≤ 1 + turns i order =
        subst (λ k. steps_left (s.calls k) ≤ 1 + turns i order) ((nat_eq.beq_iff i j).0 same)
          (ground arith) in
      rw same (omega (arith, advance-steps_left s.shared (s.calls j), left))
  | inr other ↦ rw other (ground arith)
])

run_returns :
    (texts : ℕ → Str) (order : List ℕ) (i : ℕ)
    → 3 ≤ turns i order
    → (a : Arc) × ((run order (all_called texts)).calls i ≡ returned a)
run_returns texts order i h = run_returns_lem i order (all_called texts) h

-- A call that runs alone is `intern`.
intern_alone :
    (t : PubkeyInterner) (s : Str)
    → let r = run (0 ∷ 0 ∷ 0 ∷ []) (record { shared = t; calls = λ i. called s }) in
      (r.shared ≡ (intern t s).0) × (r.calls 0 ≡ returned (intern t s).1)
unfolding advance intern
intern_alone t s = elim (Option-cases (find_key s t.interned)) [
  | inr (held, e) ↦ ground arith
  | inl fresh ↦ ground arith
]

-- For concurrent calls of intern on a new interner that take their steps in any order: calls
-- that take three steps or more have returned, each with an Arc that has the text of its key,
-- and two of them have the same allocation exactly if their keys are the same text.
pub run-shares :
    (texts : ℕ → Str) (order : List ℕ) (i j : ℕ)
    → 3 ≤ turns i order
    → 3 ≤ turns j order
    → let s = run order (all_called texts) in
      (a : Arc) × (b : Arc) × (s.calls i ≡ returned a)
      × (s.calls j ≡ returned b)
      × (a.text ≡ texts i)
      × ((a.address ≡ b.address) ↔ (texts i ≡ texts j))
run-shares texts order i j turns_i turns_j =
    let (a, first) = run_returns texts order i turns_i in
    let (b, second) = run_returns texts order j turns_j in
    let (named, shares) = returned-shares texts order i j a b first second in
    (a, b, first, second, named, shares)
