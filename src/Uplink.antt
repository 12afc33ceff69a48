-- ===== src/Uplink.antt =====
-- The client of Apollo Uplink: crates/apollo-mcp-registry/src/uplink.rs. A poll asks the endpoints in
-- turn until one answers, and a task polls until it is told to stop.
pub mod Rotation
pub mod Polling
mod Tests
use Prim.Native.Nat.{◌%◌}
use apollo_mcp_server.Prelude.{
  ℕ, zero, suc, ◌+◌, Bool, true, false, not, ◌&&◌, ◌||◌, Option, none, some, List, [], ◌∷◌, ◌++◌,
  String, Result, ok, err, length, is_empty, nat_eq, if◌then◌else◌,
}

-- `Error`, less its variant `Http`, which the module never makes.
pub data Error : Type 0 where
  fetch_failed_single : Error
  fetch_failed_multiple : ℕ → Error
  uplink_error : String → String → Error
  uplink_error_no_retry : String → String → Error

unfoldable pub is_transient : Error → Bool
is_transient fetch_failed_single = true
is_transient (fetch_failed_multiple url_count) = true
is_transient (uplink_error code message) = true
is_transient (uplink_error_no_retry code message) = false

-- Delays are in seconds.
pub data UplinkResponse (R : Type 0) : Type 0 where
  fresh : R → String → ℕ → UplinkResponse R
  unchanged : Option String → Option ℕ → UplinkResponse R
  failed : Bool → String → String → UplinkResponse R

pub data Endpoints (Url : Type 0) : Type 0 where
  fallback : List Url → Endpoints Url
  round_robin : List Url → ℕ → Endpoints Url

module _ {Url : Type 0} where
  unfoldable pub url_count : Endpoints Url → ℕ
  url_count (fallback urls) = length urls
  url_count (round_robin urls current) = length urls

  -- `urls.iter().cycle().skip(current).take(urls.len())` for a `current` below the length: the list
  -- from there on, and then what was skipped.
  unfoldable pub skip_first : ℕ → List Url → List Url → List Url
  skip_first zero skipped urls = urls ++ skipped
  skip_first (suc n) skipped [] = skipped
  skip_first (suc n) skipped (url ∷ urls) = skip_first n (skipped ++ url ∷ []) urls

  -- `iter` up to the first URL, with the reduced `current`; without URLs the remainder panics.
  unfoldable pub iter : Endpoints Url → Option (List Url × Endpoints Url)
  iter (fallback urls) = some (urls, fallback urls)
  iter (round_robin urls current) =
      if is_empty urls
      then none
      else some
          (skip_first (current % length urls) [] urls, round_robin urls (current % length urls))

  -- Each URL that the iterator gives out counts.
  unfoldable pub advance : ℕ → Endpoints Url → Endpoints Url
  advance tried (fallback urls) = fallback urls
  advance tried (round_robin urls current) = round_robin urls (current + tried)

-- What a fetch returns.
module _ {Url : Type 0} where
  unfoldable pub fetch_failed : Endpoints Url → Error
  fetch_failed endpoints =
      if nat_eq (url_count endpoints) 1
      then fetch_failed_single
      else fetch_failed_multiple (url_count endpoints)

module _ {Url T : Type 0} where
  unfoldable pub fetch_result :
      Option (UplinkResponse T) → Endpoints Url → Result (UplinkResponse T) Error
  fetch_result none endpoints = err (fetch_failed endpoints)
  fetch_result (some response) endpoints = ok response

-- The network: what a request with the last id to a URL answers, without data if the response has none, and how the
-- response is transformed. Both may change the world.
pub record Network (World Url R T : Type 0) : Type 0 where
  pub http_request : World → Option String → Url → Option (Option (UplinkResponse R)) × World
  pub transform_new_response : World → R → Option T × World

-- The answer, how many URLs were tried, and the world after.
pub record Tried (World T : Type 0) : Type 0 where
  pub answer : Option (UplinkResponse T)
  pub tried : ℕ
  pub world : World

-- An answer ends the loop over the URLs.
unfoldable pub next_url :
    {World T : Type 0} → Option (UplinkResponse T) → World → Tried World T → Tried World T
next_url none w rest = record rest { tried = suc rest.tried }
next_url (some response) w rest = record { answer = some response; tried = 1; world = w }

-- The state of the polling task.
pub record Poller (Url : Type 0) : Type 0 where
  pub last_id : Option String
  pub poll_interval : ℕ
  pub endpoints : Endpoints Url

module _ {World Url R T : Type 0} (network : Network World Url R T) (last_id : Option String) where
  -- A new response counts as an answer once it is transformed.
  unfoldable pub transformed : R → String → ℕ → World → Option (UplinkResponse T) × World
  transformed response id delay w =
      let (result, w') = network.transform_new_response w response in
      elim result [ none ↦ (none, w') | some value ↦ (some (fresh value id delay), w') ]

  unfoldable pub on_data : Option (UplinkResponse R) → World → Option (UplinkResponse T) × World
  on_data none w = (none, w)
  on_data (some (fresh response id delay)) w = transformed response id delay w
  on_data (some (unchanged id delay)) w = (some (unchanged id delay), w)
  on_data (some (failed retry_later code message)) w = (some (failed retry_later code message), w)

  -- The body of the loop over the URLs: an answer, or on to the next.
  unfoldable pub attempt : World → Url → Option (UplinkResponse T) × World
  attempt w url =
      let (response, w') = network.http_request w last_id url in
      elim response [ none ↦ (none, w') | some answer ↦ on_data answer w' ]

  unfoldable pub try_urls : World → List Url → Tried World T
  try_urls w [] = record { answer = none; tried = 0; world = w }
  try_urls w (url ∷ urls) =
      let (answer, w') = attempt w url in next_url answer w' (try_urls w' urls)

  -- `none` is a panic.
  unfoldable pub fetch_from :
      World
      → Endpoints Url
      → Option (List Url × Endpoints Url)
      → Option (Result (UplinkResponse T) Error × Endpoints Url × World)
  fetch_from w endpoints none = none
  fetch_from w endpoints (some (urls, started)) =
      let tries = try_urls w urls in
      some (fetch_result tries.answer endpoints, advance tries.tried started, tries.world)

  unfoldable pub fetch :
      World → Endpoints Url → Option (Result (UplinkResponse T) Error × Endpoints Url × World)
  fetch w endpoints = fetch_from w endpoints (iter endpoints)

unfoldable pub keep : {A : Type 0} → Option A → A → A
keep none old = old
keep (some new) old = new

-- What the task does with the outcome of a fetch: what it sends, and whether the loop breaks, as it
-- does when the receiver is gone and something is to be sent, and after an error that is final.
module _ {T : Type 0} where
  unfoldable pub sent : Result (UplinkResponse T) Error → Option (Result T Error)
  sent (ok (fresh response id delay)) = some (ok response)
  sent (ok (unchanged id delay)) = none
  sent (ok (failed retry_later code message)) =
      some (
        err (if retry_later then uplink_error code message else uplink_error_no_retry code message))
  sent (err error) = some (err error)

  unfoldable pub breaks : Bool → Result (UplinkResponse T) Error → Bool
  breaks listens (ok (fresh response id delay)) = not listens
  breaks listens (ok (unchanged id delay)) = false
  breaks listens (ok (failed retry_later code message)) = not listens || not retry_later
  breaks listens (err error) = not listens

-- The id and the interval that the task keeps.
module _ {Url T : Type 0} where
  unfoldable pub remember : Result (UplinkResponse T) Error → Poller Url → Poller Url
  remember (ok (fresh response id delay)) poller = record poller {
    last_id = some id;
    poll_interval = delay;
  }
  remember (ok (unchanged id delay)) poller = record poller {
    last_id = elim id [ none ↦ poller.last_id | some new ↦ some new ];
    poll_interval = keep delay poller.poll_interval;
  }
  remember (ok (failed retry_later code message)) poller = poller
  remember (err error) poller = poller

abbrev pub delivered : {A : Type 0} → Bool → Option A → List A → List A
delivered false item items = items
delivered true none items = items
delivered true (some item) items = item ∷ items

-- What some rounds of the loop came to: the ids of the requests, the items sent, and whether the loop
-- has ended.
pub record Run (World Url T : Type 0) : Type 0 where
  pub requests : List (Option String)
  pub items : List (Result T Error)
  pub ended : Bool
  pub poller : Poller Url
  pub world : World

module _ {World Url T : Type 0} where
  -- One round, before the others: `listens` says whether the receiver is still there.
  unfoldable pub next_round :
      Bool
      → Poller Url
      → Result (UplinkResponse T) Error
      → World
      → Option (Run World Url T)
      → Option (Run World Url T)
  next_round listens poller result w others =
      if breaks listens result
      then some (record {
        requests = poller.last_id ∷ [];
        items = delivered listens (sent result) [];
        ended = true;
        poller = remember result poller;
        world = w;
      })
      else elim others [
        | none ↦ none
        | some r ↦ some (record r {
          requests = poller.last_id ∷ r.requests;
          items = delivered listens (sent result) r.items;
        })
      ]

  -- The other rounds go on from the world and the state after the fetch.
  unfoldable pub after_fetch :
      (World → Poller Url → Option (Run World Url T))
      → Bool
      → Poller Url
      → Option (Result (UplinkResponse T) Error × Endpoints Url × World)
      → Option (Run World Url T)
  after_fetch others listens poller none = none
  after_fetch others listens poller (some (result, endpoints, w)) =
      next_round listens (record poller { endpoints = endpoints }) result w
        (others w (record (remember result poller) { endpoints = endpoints }))

module _ {World Url R T : Type 0} (network : Network World Url R T) where
  -- The loop of the task, one round for each element of the list.
  unfoldable pub run : World → Poller Url → List Bool → Option (Run World Url T)
  run w poller [] =
      some (record { requests = []; items = []; ended = false; poller = poller; world = w })
  run w poller (listens ∷ rounds) =
      after_fetch (λ w' poller'. run w' poller' rounds) listens poller
        (fetch network poller.last_id w poller.endpoints)
