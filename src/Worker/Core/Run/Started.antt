-- ===== src/Worker/Core/Run/Started.antt =====
-- crawler_core.rs, `run` with a URL to start at: what is in the queue when the workers start.
use polite_web_crawler.Prelude.{
  suc, ◌≡◌, refl, Bool, false, some, String, List, [], ◌∷◌, ◌==◌, length, arith,
}
use polite_web_crawler.Common.Outcome.{Outcome, ok, err, panic}
use polite_web_crawler.Common.Url.{UrlApi, parsed, parse_outcome}
use polite_web_crawler.Common.Queue.{
  Link, up, lost_request, lost_reply, command, push, is_empty, clean_queue,
}
use polite_web_crawler.Worker.Core.Loop.{Shared}
use polite_web_crawler.Worker.Core.Run.{
  SeedCalls, seeded, Start, start_inserted, start_pushed, start_parsed, start_cleaned,
  start_checked, seed,
}

module _ {Url : Type 0} (api : UrlApi Url) (calls : SeedCalls) where
  -- A start with the URL alone in the queue, counted, and inserted in the seen URLs.
  abbrev pub StartsAt : Url → Shared → Type 0
  StartsAt u s =
      (s ≡ seeded 1 (api.as_str u ∷ [])) × (b : Bool) × (calls.insert (api.as_str u) ≡ ok b)

  abbrev At : Url → Start api calls → Type 0
  At u r = (s : Shared) → r ≡ ok (some s) → StartsAt u s

  inserted-At :
      (u : Url) (r : Outcome Bool)
      → calls.insert (api.as_str u) ≡ r
      → At u (start_inserted api calls (seeded 1 (api.as_str u ∷ [])) r)
  unfolding start_inserted
  inserted-At u (ok b) h s e = (cc e, b, h)
  inserted-At u (err x) h s e = cc e
  inserted-At u panic h s e = cc e

  pushed-At :
      (u : Url) (l : Link) → At u (start_pushed api calls (api.as_str u) (push l (api.as_str u) []))
  unfolding start_pushed push command
  pushed-At u up = inserted-At u (calls.insert (api.as_str u)) refl
  pushed-At u (lost_request x) = λ s e. cc e
  pushed-At u (lost_reply x) = λ s e. cc e

  parsed-At :
      (u : Url) (start_url : String)
      → api.parse start_url ≡ parsed u
      → At u (start_parsed api calls (parse_outcome (api.parse start_url)) [])
  unfolding start_parsed parse_outcome
  parsed-At u start_url parses = rw parses (pushed-At u (calls.links 2))

  cleaned-At :
      (u : Url) (start_url : String) (l : Link) (queue : List String)
      → api.parse start_url ≡ parsed u
      → At u (start_cleaned api calls start_url (clean_queue l queue))
  unfolding start_cleaned clean_queue command
  cleaned-At u start_url up queue parses = parsed-At u start_url parses
  cleaned-At u start_url (lost_request x) queue parses = λ s e. cc e
  cleaned-At u start_url (lost_reply x) queue parses = λ s e. cc e

  checked-At :
      (u : Url) (start_url : String) (l : Link) (queue : List String)
      → api.parse start_url ≡ parsed u
      → At u (start_checked api calls start_url (is_empty l queue))
  unfolding start_checked is_empty command
  checked-At u start_url up [] parses = parsed-At u start_url parses
  checked-At u start_url up (q ∷ qs) parses =
      rw (not_empty, start_checked) (cleaned-At u start_url (calls.links 1) (q ∷ qs) parses)
    where
      not_empty : (suc (length qs) == 0) ≡ false
      not_empty = ground arith
  checked-At u start_url (lost_request x) queue parses = λ s e. cc e
  checked-At u start_url (lost_reply x) queue parses = λ s e. cc e

  pub seed-At :
      (u : Url) (start_url : String) (queue : List String) (s : Shared)
      → api.parse start_url ≡ parsed u
      → seed api calls (some start_url) queue ≡ ok (some s)
      → StartsAt u s
  unfolding seed
  seed-At u start_url queue s parses = checked-At u start_url (calls.links 0) queue parses s
