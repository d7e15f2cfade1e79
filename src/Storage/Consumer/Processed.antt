-- ===== src/Storage/Consumer/Processed.antt =====
-- main.rs, `process_stream_entry`: an entry whose payload can be read is an event that is saved.
use polite_web_crawler.Prelude.{◌≡◌, ◌∙◌, ap, some, String}
use polite_web_crawler.Common.Outcome.{Outcome, ok}
use polite_web_crawler.Common.Data.{ParsedData}
use polite_web_crawler.Storage.Service.{Env, CrawlerStorage, save_parsed_data}
use polite_web_crawler.Storage.Consumer.{
  StreamEntry, Connections, save_read, process_payload, process_stream_entry,
}

pub processed :
    {Url Robot F32 Filter Store : Type 0} (env : Env Url Robot F32 Filter Store)
    (from_json : String → Outcome (ParsedData F32)) (s : CrawlerStorage F32 Filter Store)
    (entry : StreamEntry) (c : Connections) (event : ParsedData F32) (payload : String)
    → entry.payload ≡ some payload
    → from_json payload ≡ ok event
    → process_stream_entry env from_json s entry c
      ≡ save_parsed_data env s event c.looking c.writing
unfolding process_stream_entry process_payload save_read
processed env from_json s entry c event payload has reads =
    ap (λ o. process_payload env from_json s o c) has ∙ ap (λ d. save_read env s d c) reads
