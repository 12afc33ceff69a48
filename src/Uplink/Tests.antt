-- ===== src/Uplink/Tests.antt =====
-- A network with one endpoint that is down, and the theorems at concrete inputs.
use apollo_mcp_server.Prelude.{
  ℕ, zero, suc, ◌*◌, ◌≡◌, inl, inr, refl, Bool, true, false, none, some, List, [], ◌∷◌, String,
  ◌==◌, ok, err, arith, if◌then◌else◌,
}
use apollo_mcp_server.Uplink.{
  uplink_error_no_retry, UplinkResponse, fresh, unchanged, failed, Endpoints, round_robin,
  url_count, skip_first, iter, advance, Network, transformed, on_data, attempt, next_url, try_urls,
  fetch_result, fetch_from, fetch, keep, sent, breaks, remember, Poller, Run, next_round,
  after_fetch, run,
}
use apollo_mcp_server.Uplink.Rotation.{urls_of, IsUp, fetch-up}
use apollo_mcp_server.Uplink.Polling.{IsSound, run-IsSound}

-- The world counts requests. The first of all has a schema for its answer; then, once, nothing is new,
-- and then Uplink refuses.
abbrev answer_to : ℕ → UplinkResponse String
answer_to zero = fresh "type Query" "1" 10
answer_to (suc zero) = unchanged none none
answer_to (suc (suc n)) = failed false "ACCESS_DENIED" "no such graph"

abbrev network : Network ℕ String String String
network = record {
  http_request =
      λ w id url. if url == "https://down/" then (none, w) else (some (some (answer_to w)), suc w);
  transform_new_response = λ w response. (some response, w);
}

abbrev endpoints : Endpoints String
endpoints = round_robin ("https://down/" ∷ "https://up/" ∷ []) 0

abbrev poller : Poller String
poller = record { last_id = none; poll_interval = 60; endpoints = endpoints }

abbrev three_rounds : List Bool
three_rounds = true ∷ true ∷ true ∷ true ∷ []

runs :
    run network 0 poller three_rounds
    ≡ some (record {
      requests = none ∷ some "1" ∷ some "1" ∷ [];
      items = ok "type Query" ∷ err (uplink_error_no_retry "ACCESS_DENIED" "no such graph") ∷ [];
      ended = true;
      poller = record {
        last_id = some "1";
        poll_interval = 10;
        endpoints = round_robin ("https://down/" ∷ "https://up/" ∷ []) 2;
      };
      world = 3;
    })
unfolding run after_fetch fetch fetch_from iter skip_first try_urls attempt on_data transformed
    next_url fetch_result advance next_round breaks remember sent keep
runs = refl

IsUp-IsUp : IsUp network none "https://up/"
unfolding attempt on_data transformed
IsUp-IsUp zero = refl
IsUp-IsUp (suc zero) = refl
IsUp-IsUp (suc (suc n)) = refl

fetch-up_example :
    (response : UplinkResponse String) × (next : Endpoints String) × (w' : ℕ) × (fetch network none
        0 endpoints
      ≡ some (ok response, next, w'))
    × (urls_of next ≡ urls_of endpoints)
fetch-up_example = fetch-up network none 0 endpoints (inr (inl IsUp-IsUp))

run-IsSound_example :
    (r : Run ℕ String String) × (run network 0 poller three_rounds ≡ some r)
    × IsSound network (2 * url_count endpoints) r
unfolding url_count
run-IsSound_example =
    run-IsSound network 0 poller three_rounds (omega arith) (omega arith)
      (refl, (refl, (refl, (refl, tt))))
