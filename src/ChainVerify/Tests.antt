-- ===== src/ChainVerify/Tests.antt =====
-- The verifier at concrete chains; the hash function is a stand-in.
use loopstorm_guard.Common.{ℕ, String, Option, none, some, List, [], ◌∷◌, ◌≡◌, ◌↔◌, refl, All}
use loopstorm_guard.Common.Sort.{sort_by}
use loopstorm_guard.Json.{end, ◌<>◌}
use loopstorm_guard.ChainVerify.{
  ChainEvent, valid, invalid, chain_break, verify_chain, compute_event_hash,
}
use loopstorm_guard.ChainVerify.Linked.{
  IsAuthentic, IsLinked, FirstBreak, verify_chain_iff, verify_chain_broken,
}

abbrev digest : String → String
digest line = "#" <> line

abbrev event : ℕ → String → Option String → ChainEvent
event seq line prev = record {
  seq = seq;
  hash = digest line;
  hash_prev = prev;
  raw_line = some line;
  rest = end;
}

abbrev intact : List ChainEvent
intact = event 2 "b" (some "#a") ∷ event 1 "a" none ∷ []

abbrev broken : List ChainEvent
broken = event 2 "b" (some "#x") ∷ event 1 "a" none ∷ []

intact_test : verify_chain digest intact ≡ valid 2
unfolding verify_chain compute_event_hash sort_by
intact_test = refl

broken_test : verify_chain digest broken ≡ invalid 2 2 (chain_break (some "#x") "#a")
unfolding verify_chain compute_event_hash sort_by
broken_test = refl

verify_chain_iff_example : (verify_chain digest intact ≡ valid 2) ↔ (
    ◌≡◌ {A = ℕ} 2 2
    × All (IsAuthentic digest) (sort_by (λ e. e.seq) intact)
    × IsLinked none (sort_by (λ e. e.seq) intact))
verify_chain_iff_example = verify_chain_iff digest intact 2

verify_chain_broken_example :
    FirstBreak digest (sort_by (λ e. e.seq) broken) 2 (chain_break (some "#x") "#a")
verify_chain_broken_example =
    verify_chain_broken digest broken 2 2 (chain_break (some "#x") "#a") broken_test
