-- ===== src/Tests/Answers.antt =====
-- What the read operations answer on the sample graphs.
use nostr_wot_oracle.Prelude.{◌≡◌, ◌&&◌, List, length, take, drop}
use mathlib.Core.Option
use nostr_wot_oracle.Prelude.Str.{Str, contains}
use nostr_wot_oracle.Graph.Store.Query.{
  common_follows, mute_evidence, get_follows_page, get_follows,
}
use nostr_wot_oracle.Graph.Store.View.{follows, mutes}
use nostr_wot_oracle.Graph.Store.Answers.{
  common_follows_lem, mute_evidence_lem, get_follows_page_lem,
}
use nostr_wot_oracle.Tests.Samples.{ann, bob, cat, small, small-WellFormed, muted, muted-WellFormed}

common_follows_lem_example :
    contains cat (common_follows small ann bob) ≡ follows small ann cat && follows small bob cat
common_follows_lem_example = common_follows_lem small small-WellFormed ann bob cat

mute_evidence_lem_example :
    ((mute_evidence muted ann cat).source_mutes_target ≡ mutes muted ann cat)
    × ((mute_evidence muted ann cat).target_mutes_source ≡ mutes muted cat ann)
    × (contains bob (mute_evidence muted ann cat).followed_muters
        ≡ follows muted ann bob && mutes muted bob cat)
mute_evidence_lem_example = mute_evidence_lem muted muted-WellFormed ann cat bob

get_follows_page_lem_example :
    get_follows_page small ann 1 5
    ≡ Option.map (λ (all : List Str). (take 5 (drop 1 all), length all)) (get_follows small ann)
get_follows_page_lem_example = get_follows_page_lem small small-WellFormed ann 1 5
