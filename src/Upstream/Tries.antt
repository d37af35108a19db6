-- ===== src/Upstream/Tries.antt =====
-- galaxy_ng/app/utils/galaxy.py: how often safe_fetch asks, and how long it waits.
use galaxy_ng.Prelude.{
  ℕ, zero, suc, ◌+◌, ◌*◌, ◌≤◌, ◌<◌, ◌≡◌, refl, ap, ltb, leb, Text, true, false, ◌⊎◌, inl, inr,
  Bool-cases, arith,
}
use galaxy_ng.Upstream.Run.{Response, Server, Session, ok}
use galaxy_ng.Upstream.Fetch.{request, fetch_loop, safe_fetch}

-- An answer after some requests, with a minute of sleep between them: the answer to the last one,
-- which is no server error unless it was the fifth.
pub record IsFetched (server : Server) (url : Text) (tries : ℕ) (s t : Session) (r : Response)
    : Type 0 where
  pub asked : s.requests < t.requests
  pub bounded : t.requests ≤ s.requests + tries
  pub waited : t.slept + 60 * (s.requests + 1) ≡ s.slept + 60 * t.requests
  pub same_cache : t.cache ≡ s.cache
  pub same_sent : t.sent ≡ s.sent
  pub final : (n : ℕ) → t.requests ≡ n + 1 → r ≡ server n url
  pub settled : (r.status < 500) ⊎ (t.requests ≡ s.requests + tries)

-- A session after one request, and after a minute more.
abbrev pub asked_once : Session → Session
asked_once s = record s { requests = s.requests + 1 }

abbrev rested : Session → Session
rested s = record s { requests = s.requests + 1; slept = s.slept + 60 }

once-IsFetched :
    (server : Server) (url : Text) (tries : ℕ) (s : Session)
    → ((server s.requests url).status < 500) ⊎ (tries ≡ 1)
    → 0 < tries
    → IsFetched server url tries s (asked_once s) (server s.requests url)
once-IsFetched server url tries s h positive = record {
  asked = omega arith;
  bounded = omega arith;
  waited = omega arith;
  same_cache = refl;
  same_sent = refl;
  final = λ n e. let same : s.requests ≡ n = omega (arith, e) in ap (λ k. server k url) same;
  settled = elim h [ inl good ↦ inl good | inr last ↦ inr (omega (arith, last)) ];
}

again-IsFetched :
    (server : Server) (url : Text) (tries : ℕ) (s t : Session) (r : Response)
    → IsFetched server url tries (rested s) t r
    → IsFetched server url (suc tries) s t r
again-IsFetched server url tries s t r h = record {
  asked = omega (arith, h.asked);
  bounded = omega (arith, h.bounded);
  waited = omega (arith, h.waited);
  same_cache = h.same_cache;
  same_sent = h.same_sent;
  final = h.final;
  settled = elim h.settled [ inl good ↦ inl good | inr last ↦ inr (omega (arith, last)) ];
}

fetch_loop-IsFetched :
    (server : Server) (url : Text) (fuel counter : ℕ) (s : Session)
    → suc fuel + counter ≡ 5
    → (r : Response) × (t : Session) × (fetch_loop server url (suc fuel) counter s ≡ ok r t)
      × IsFetched server url (suc fuel) s t r
unfolding fetch_loop request
fetch_loop-IsFetched server url zero counter s e =
    let over : leb 5 (counter + 1) ≡ true = ground (arith, e) in
    elim (Bool-cases (ltb (server s.requests url).status 500)) [
      | inl good ↦ (
        server s.requests url,
        asked_once s,
        rw good refl,
        once-IsFetched server url 1 s (inr refl) (omega arith),
      )
      | inr bad ↦ (
        server s.requests url,
        asked_once s,
        rw (bad, over) refl,
        once-IsFetched server url 1 s (inr refl) (omega arith),
      )
    ]
fetch_loop-IsFetched server url (suc fuel) counter s e =
    let more : leb 5 (counter + 1) ≡ false = ground (arith, e) in
    elim (Bool-cases (ltb (server s.requests url).status 500)) [
      | inl good ↦ (
        server s.requests url,
        asked_once s,
        rw good refl,
        once-IsFetched server url (suc (suc fuel)) s (inl (ground (arith, good))) (omega arith),
      )
      | inr bad ↦
          let (r, t, runs, fetched) =
            fetch_loop-IsFetched server url fuel (counter + 1) (rested s) (omega (arith, e)) in
          (r, t, rw (bad, more) runs, again-IsFetched server url (suc fuel) s t r fetched)
    ]

-- A fetch ends after one to five requests with a minute of sleep between them, with the answer to
-- the last one, which is no server error unless it was the fifth; the fetch changes neither the
-- cache nor what was sent.
pub safe_fetch-IsFetched :
    (server : Server) (url : Text) (s : Session)
    → (r : Response) × (t : Session) × (safe_fetch server url s ≡ ok r t)
      × IsFetched server url 5 s t r
unfolding safe_fetch
safe_fetch-IsFetched server url s = fetch_loop-IsFetched server url 4 0 s refl

-- A server that answers, at once.
pub safe_fetch_answered :
    (answer : Text → Response) (url : Text) (s : Session)
    → ltb (answer url).status 500 ≡ true
    → safe_fetch (λ n. answer) url s ≡ ok (answer url) (asked_once s)
unfolding safe_fetch fetch_loop request
safe_fetch_answered answer url s h = rw h refl
