-- ===== src/Tests/Interning.antt =====
-- Two calls with one key race to intern it, beside a call with another key.
use nostr_wot_oracle.Prelude.{ℕ, ◌≡◌, ◌↔◌, List, [], ◌∷◌, refl, arith, if◌then◌else◌, ◌==◌}
use nostr_wot_oracle.Prelude.Str.{Str, str_eq}
use nostr_wot_oracle.Graph.Interner.{Arc, returned, advance}
use nostr_wot_oracle.Graph.Interner.Shared.{run, all_called, run-shares}
use nostr_wot_oracle.Tests.Samples.{ann, bob}

abbrev texts : ℕ → Str
texts i = if i == 2 then bob else ann

-- Both allocate before either enters its key.
abbrev race : List ℕ
race = 0 ∷ 1 ∷ 2 ∷ 0 ∷ 1 ∷ 2 ∷ 1 ∷ 0 ∷ 2 ∷ []

abbrev shared_arc : Arc
shared_arc = record { address = 0; text = ann }

both_back :
    ((run race (all_called texts)).calls 0 ≡ returned shared_arc)
    × ((run race (all_called texts)).calls 1 ≡ returned shared_arc)
unfolding advance str_eq
both_back = (refl, refl)

run-shares_example :
    let s = run race (all_called texts) in
    (a : Arc) × (b : Arc) × (s.calls 0 ≡ returned a)
    × (s.calls 1 ≡ returned b)
    × (a.text ≡ texts 0)
    × ((a.address ≡ b.address) ↔ (texts 0 ≡ texts 1))
run-shares_example = run-shares texts race 0 1 (omega arith) (omega arith)
