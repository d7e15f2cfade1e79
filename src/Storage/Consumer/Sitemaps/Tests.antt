-- ===== src/Storage/Consumer/Sitemaps/Tests.antt =====
-- Runs of the consumer, and its theorems at concrete inputs.
use polite_web_crawler.Prelude.{ℕ, zero, suc, ◌≡◌, refl, true, some, String, List, [], ◌∷◌}
use polite_web_crawler.Common.Errors.{serde_error}
use polite_web_crawler.Common.Outcome.{Outcome, err}
use polite_web_crawler.Common.Data.{ParsedData}
use polite_web_crawler.Common.Queue.{Link, up, lost_reply, command, push}
use polite_web_crawler.Storage.Service.Simple.{env, started, working, bloom-IsBloom}
use polite_web_crawler.Storage.Consumer.Sitemaps.{cut, sitemaps_lost}
use polite_web_crawler.Storage.Consumer.{
  push_retried, push_sitemaps, process_stream_entry, save_read, after_entry, handle_entry,
}

abbrev maps : List String
maps = "https://a.org/sitemap.xml" ∷ []

abbrev always : ℕ → ℕ → Link
always k i = up

-- The first reply is lost behind the push, so that the second try pushes again.
abbrev lost_once : ℕ → Link
lost_once zero = up
lost_once (suc zero) = lost_reply "reset"
lost_once (suc (suc i)) = up

pushed_twice : push_retried 3 1 lost_once "a" [] ≡ "a" ∷ "a" ∷ []
unfolding push_retried push command
pushed_twice = refl

abbrev no_json : String → Outcome (ParsedData ℕ)
no_json text = err (serde_error "expected value")

-- An entry that does not parse is not acknowledged.
unparsed_pending :
    (handle_entry env no_json
      (record { storage = started; queue = []; acknowledged = [] })
      (record { id = "1-0"; payload = some "x" })
      (record { looking = working; writing = working; links = always; acks = true })).1.acknowledged
    ≡ []
unfolding handle_entry process_stream_entry after_entry save_read
unparsed_pending = refl

sitemaps_lost_example :
    ((push_sitemaps env (started, []) (λ _. cut "refused") 0 maps).1 ≡ [])
    × ((push_sitemaps env
          ((push_sitemaps env (started, []) (λ _. cut "refused") 0 maps).0, [])
          always
          0
          maps).1
        ≡ [])
sitemaps_lost_example = sitemaps_lost env bloom-IsBloom started [] [] "refused" always maps
