-- ===== src/Uplink/Rotation.antt =====
-- The endpoints that a fetch tries: all of them, each at most once.
use Prim.Native.Nat.{◌%◌}
use native.Mathlib.Nat.{mod-lt}
use apollo_mcp_server.Prelude.{
  ℕ, zero, suc, ◌+◌, ◌*◌, ◌≤◌, ◌<◌, ◌≡◌, ◌∙◌, ◌⊎◌, inl, inr, refl, ap, true, Option, none, some,
  List, [], ◌∷◌, ◌++◌, String, Result, ok, length, is_some, Any, arith,
}
use apollo_mcp_server.Uplink.{
  UplinkResponse, Endpoints, fallback, round_robin, url_count, skip_first, iter, advance, Network,
  attempt, Tried, Error, next_url, try_urls, fetch_result, fetch_from, fetch,
}

Any-append_left : {A : Type 0} (P : A → Type 0) (xs ys : List A) → Any P xs → Any P (xs ++ ys)
Any-append_left P [] ys h = absurd h
Any-append_left P (x ∷ xs) ys (inl here) = inl here
Any-append_left P (x ∷ xs) ys (inr rest) = inr (Any-append_left P xs ys rest)

Any-append_right : {A : Type 0} (P : A → Type 0) (xs ys : List A) → Any P ys → Any P (xs ++ ys)
Any-append_right P [] ys h = h
Any-append_right P (x ∷ xs) ys h = inr (Any-append_right P xs ys h)

length-append : {A : Type 0} (xs ys : List A) → length (xs ++ ys) ≡ length xs + length ys
length-append [] ys = ground arith
length-append (x ∷ xs) ys = ground (arith, length-append xs ys)

module _ {Url : Type 0} where
  abbrev pub urls_of : Endpoints Url → List Url
  urls_of (fallback urls) = urls
  urls_of (round_robin urls current) = urls

  -- Where a round-robin stands.
  abbrev pub position : Endpoints Url → ℕ
  position (fallback urls) = 0
  position (round_robin urls current) = current

  pub url_count-length :
      (endpoints : Endpoints Url) → url_count endpoints ≡ length (urls_of endpoints)
  unfolding url_count
  url_count-length (fallback urls) = refl
  url_count-length (round_robin urls current) = refl

  -- Skipping leaves nothing out.
  Any-skip_first :
      (P : Url → Type 0) (n : ℕ) (skipped urls : List Url)
      → Any P skipped ⊎ Any P urls
      → Any P (skip_first n skipped urls)
  unfolding skip_first
  Any-skip_first P zero skipped urls (inl h) = Any-append_right P urls skipped h
  Any-skip_first P zero skipped urls (inr h) = Any-append_left P urls skipped h
  Any-skip_first P (suc n) skipped [] (inl h) = h
  Any-skip_first P (suc n) skipped [] (inr h) = absurd h
  Any-skip_first P (suc n) skipped (url ∷ urls) (inl h) =
      Any-skip_first P n (skipped ++ url ∷ []) urls (inl (Any-append_left P skipped _ h))
  Any-skip_first P (suc n) skipped (url ∷ urls) (inr (inl h)) =
      Any-skip_first P n (skipped ++ url ∷ []) urls (inl (Any-append_right P skipped _ (inl h)))
  Any-skip_first P (suc n) skipped (url ∷ urls) (inr (inr h)) =
      Any-skip_first P n (skipped ++ url ∷ []) urls (inr h)

  length-skip_first :
      (n : ℕ) (skipped urls : List Url)
      → length (skip_first n skipped urls) ≡ length skipped + length urls
  unfolding skip_first
  length-skip_first zero skipped urls = ground (arith, length-append urls skipped)
  length-skip_first (suc n) skipped [] = ground arith
  length-skip_first (suc n) skipped (url ∷ urls) =
      ground
        (arith, length-skip_first n (skipped ++ url ∷ []) urls, length-append skipped (url ∷ []))

  -- With URLs, a fetch starts, at a reduced position, and has all of them to try.
  pub iter-ready :
      (endpoints : Endpoints Url)
      → zero < url_count endpoints
      → (urls : List Url) × (started : Endpoints Url) × (iter endpoints ≡ some (urls, started))
        × (length urls ≡ url_count endpoints)
        × (urls_of started ≡ urls_of endpoints)
        × (position started < url_count endpoints)
        × ((P : Url → Type 0) → Any P (urls_of endpoints) → Any P urls)
  unfolding iter url_count
  iter-ready (fallback urls) h = (urls, fallback urls, refl, refl, refl, h, λ P k. k)
  iter-ready (round_robin [] current) h = absurd (ground arith)
  iter-ready (round_robin (url ∷ urls) current) h =
      let all = url ∷ urls in
      let start = current % length all in
      (
        skip_first start [] all,
        round_robin all start,
        refl,
        length-skip_first start [] all ∙ ground arith,
        refl,
        mod-lt current h,
        λ P k. Any-skip_first P start [] all (inr k),
      )

module _ {World T : Type 0} where
  tried-next_url :
      (answer : Option (UplinkResponse T)) (w : World) (rest : Tried World T)
      → (next_url answer w rest).tried ≤ suc rest.tried
  unfolding next_url
  tried-next_url none w rest = ground arith
  tried-next_url (some response) w rest = ground arith

  answer-next_url :
      (answer : Option (UplinkResponse T)) (w : World) (rest : Tried World T)
      → (is_some answer ≡ true) ⊎ (is_some rest.answer ≡ true)
      → is_some (next_url answer w rest).answer ≡ true
  unfolding next_url
  answer-next_url none w rest (inl h) = absurd (ground arith)
  answer-next_url none w rest (inr h) = h
  answer-next_url (some response) w rest h = refl

module _ {Url : Type 0} where
  advance-urls_of :
      (tried : ℕ) (endpoints : Endpoints Url)
      → urls_of (advance tried endpoints) ≡ urls_of endpoints
  unfolding advance
  advance-urls_of tried (fallback urls) = refl
  advance-urls_of tried (round_robin urls current) = refl

  advance-position :
      (tried : ℕ) (endpoints : Endpoints Url)
      → position (advance tried endpoints) ≤ position endpoints + tried
  unfolding advance
  advance-position tried (fallback urls) = ground arith
  advance-position tried (round_robin urls current) = ground arith

module _ {Url T : Type 0} where
  fetch_result-some :
      (answer : Option (UplinkResponse T)) (endpoints : Endpoints Url)
      → is_some answer ≡ true
      → (response : UplinkResponse T) × (fetch_result answer endpoints ≡ ok response)
  unfolding fetch_result
  fetch_result-some none endpoints h = absurd (ground arith)
  fetch_result-some (some response) endpoints h = (response, refl)

module _ {World Url R T : Type 0} (network : Network World Url R T) (last_id : Option String) where
  tried-length :
      (w : World) (urls : List Url) → (try_urls network last_id w urls).tried ≤ length urls
  unfolding try_urls
  tried-length w [] = ground arith
  tried-length w (url ∷ urls) =
      let first = attempt network last_id w url in
      let rest = try_urls network last_id first.1 urls in
      ground (arith, tried-next_url first.0 first.1 rest, tried-length first.1 urls)

  -- An endpoint that answers in every state of the network.
  abbrev pub IsUp : Url → Type 0
  IsUp url = (w : World) → is_some (attempt network last_id w url).0 ≡ true

  answer-up :
      (w : World) (urls : List Url)
      → Any IsUp urls
      → is_some (try_urls network last_id w urls).answer ≡ true
  unfolding try_urls
  answer-up w [] h = absurd h
  answer-up w (url ∷ urls) (inl up) =
      let first = attempt network last_id w url in
      answer-next_url first.0 first.1 (try_urls network last_id first.1 urls) (inl (up w))
  answer-up w (url ∷ urls) (inr h) =
      let first = attempt network last_id w url in
      answer-next_url first.0 first.1 (try_urls network last_id first.1 urls)
        (inr (answer-up first.1 urls h))

  pub fetch-answers :
      (w : World) (endpoints : Endpoints Url)
      → zero < url_count endpoints
      → (result : Result (UplinkResponse T) Error) × (next : Endpoints Url) × (w' : World) × (fetch
            network last_id w endpoints
          ≡ some (result, next, w'))
        × (urls_of next ≡ urls_of endpoints)
        × (position next < 2 * url_count endpoints)
        × (Any IsUp (urls_of endpoints) → (response : UplinkResponse T) × (result ≡ ok response))
  unfolding fetch fetch_from
  fetch-answers w endpoints h =
      let (urls, started, e, full, same, below, covers) = iter-ready endpoints h in
      let tries = try_urls network last_id w urls in
      (
        fetch_result tries.answer endpoints,
        advance tries.tried started,
        tries.world,
        ap (fetch_from network last_id w endpoints) e,
        advance-urls_of tries.tried started ∙ same,
        ground (arith, advance-position tries.tried started, tried-length w urls, full, below),
        λ up. fetch_result-some tries.answer endpoints (answer-up w urls (covers IsUp up)),
      )

  some_up : (urls : List Url) → Any IsUp urls → zero < length urls
  some_up [] h = absurd h
  some_up (url ∷ urls) h = ground arith

  -- If one of the URLs answers in every state of the network, a fetch has an answer: under either
  -- strategy, wherever a round-robin stands, and whatever the other endpoints do.
  pub fetch-up :
      (w : World) (endpoints : Endpoints Url)
      → Any IsUp (urls_of endpoints)
      → (response : UplinkResponse T) × (next : Endpoints Url) × (w' : World) × (fetch network
            last_id w endpoints
          ≡ some (ok response, next, w'))
        × (urls_of next ≡ urls_of endpoints)
  fetch-up w endpoints up =
      let (result, next, w', fetched, same, below, answers) =
        fetch-answers w endpoints
          (ground (arith, url_count-length endpoints, some_up (urls_of endpoints) up)) in
      let (response, answered) = answers up in
      (response, next, w', fetched ∙ ap (λ r. some (r, next, w')) answered, same)
