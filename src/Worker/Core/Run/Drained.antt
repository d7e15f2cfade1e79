-- ===== src/Worker/Core/Run/Drained.antt =====
-- crawler_core.rs, `worker_loop` and the coordinator: a crawl that finds nothing new comes to its end.
use polite_web_crawler.Prelude.{
  ℕ, zero, suc, ◌^◌, ◌<◌, ◌≡◌, refl, ◌∙◌, ap, true, Option, none, some, String, List, [], ◌∷◌,
  length, All, arith,
}
use polite_web_crawler.Common.Outcome.{ok, ◌>>=◌}
use polite_web_crawler.Common.Url.{Parsed, parsed, UrlApi, parse_outcome}
use polite_web_crawler.Common.Queue.{up, command, take_front, parse_line, pop_front}
use polite_web_crawler.Worker.Core.Loop.{
  Phase, idle, holding, guarded, Shared, popped, tried, processed, fetch_sub, after_pop, after_try,
  worker_step, advance, Happening, at_worker, happen, run,
}
use polite_web_crawler.Worker.Core.Run.{ends_crawl}

-- One round of the first worker: it pops a URL, may ask the domain, and finds nothing new.
abbrev pub rounds : ℕ → List Happening
rounds zero = []
rounds (suc n) =
    at_worker 0 (popped up) ∷ at_worker 0 (tried true up) ∷ at_worker 0 (processed []) ∷ rounds n

at_zero : (limit : Option ℕ) (pages_crawled : ℕ) → ends_crawl limit 0 pages_crawled ≡ true
unfolding ends_crawl
at_zero none n = refl
at_zero (some l) n = refl

module _ {Url : Type 0} (api : UrlApi Url) where
  -- A text of a URL with a domain.
  pub record HasDomain (line : String) : Type 0 where
    pub url : Url
    pub domain : String
    pub parses : api.parse line ≡ parsed url
    pub host : api.domain url ≡ some domain

  pops_line :
      (s : Shared) (ps : List (Phase Url)) (line : String) (queue : List String)
      (h : HasDomain line)
      → happen api (at_worker 0 (popped up)) (record s { queue = line ∷ queue }, idle ∷ ps)
        ≡ (record s { queue = queue }, holding h.url ∷ ps)
  unfolding happen advance worker_step after_pop pop_front command take_front parse_line
      parse_outcome
  pops_line s ps line queue h = ap in_front h.parses
    where
      in_front : Parsed Url → Shared × List (Phase Url)
      in_front p =
          let x =
            after_pop (record s { queue = line ∷ queue })
              (parse_outcome p >>= (λ u. ok (some u)), queue) in
          (x.0, x.1 ∷ ps)

  tries_url :
      (s : Shared) (ps : List (Phase Url)) (url : Url) (domain : String)
      → api.domain url ≡ some domain
      → happen api (at_worker 0 (tried true up)) (s, holding url ∷ ps) ≡ (s, guarded ∷ ps)
  unfolding happen advance worker_step after_try
  tries_url s ps url domain host = ap in_front host
    where
      in_front : Option String → Shared × List (Phase Url)
      in_front d = let x = after_try api s url d true up in (x.0, x.1 ∷ ps)

  finds_nothing :
      (s : Shared) (ps : List (Phase Url))
      → happen api (at_worker 0 (processed [])) (s, guarded ∷ ps) ≡ (fetch_sub s, idle ∷ ps)
  unfolding happen advance worker_step
  finds_nothing s ps = refl

  round :
      (s : Shared) (ps : List (Phase Url)) (line : String) (queue : List String)
      (more : List Happening)
      → HasDomain line
      → run api
          (at_worker 0 (popped up)
            ∷ at_worker 0 (tried true up)
            ∷ at_worker 0 (processed [])
            ∷ more)
          (record s { queue = line ∷ queue }, idle ∷ ps)
        ≡ run api more (fetch_sub (record s { queue = queue }), idle ∷ ps)
  unfolding run
  round s ps line queue more h =
      ap
        (λ x.
          run api more
            (happen api (at_worker 0 (processed [])) (happen api (at_worker 0 (tried true up)) x)))
        (pops_line s ps line queue h)
      ∙ ap (λ x. run api more (happen api (at_worker 0 (processed [])) x))
          (tries_url (record s { queue = queue }) ps h.url h.domain h.host)
      ∙ ap (run api more) (finds_nothing (record s { queue = queue }) ps)

  drain :
      (queue : List String) (s : Shared) (ps : List (Phase Url))
      → All HasDomain queue
      → s.active_tasks ≡ length queue
      → length queue < 2 ^ 64
      → run api (rounds (length queue)) (record s { queue = queue }, idle ∷ ps)
        ≡ (record s { queue = []; active_tasks = 0 }, idle ∷ ps)
  unfolding run fetch_sub
  drain [] s ps all counts small =
      ap (λ n. (record s { queue = []; active_tasks = n }, idle ∷ ps)) counts
  drain (line ∷ queue) s ps (h, all) counts small =
      round s ps line queue (rounds (length queue)) h
      ∙ drain queue (fetch_sub s) ps all (omega arith) (omega arith)

  -- A crawl that finds nothing new comes to its end: if every text in the queue is a URL with a domain and the
  -- counter of active tasks is their number, below 2 ^ 64, then one worker, whose pops and rate limiter
  -- let it go on and whose pages yield no new links, empties the queue in as many rounds, and the
  -- coordinator's test then ends the crawl, whatever its limit is.
  pub drained_ends :
      (s : Shared) (ps : List (Phase Url)) (limit : Option ℕ) (pages_crawled : ℕ)
      → All HasDomain s.queue
      → s.active_tasks ≡ length s.queue
      → length s.queue < 2 ^ 64
      → ((run api (rounds (length s.queue)) (s, idle ∷ ps)).0.queue ≡ [])
        × (ends_crawl limit
              (run api (rounds (length s.queue)) (s, idle ∷ ps)).0.active_tasks
              pages_crawled
            ≡ true)
  drained_ends s ps limit pages_crawled all counts small =
      let end = drain s.queue s ps all counts small in
      (
        ap (λ (x : Shared × List (Phase Url)). x.0.queue) end,
        ap (λ (x : Shared × List (Phase Url)). ends_crawl limit x.0.active_tasks pages_crawled) end
            ∙ at_zero limit pages_crawled,
      )
