-- ===== src/Storage/Consumer/Group/Tests.antt =====
-- Runs of the consumer with its group, and the theorems at concrete inputs.
use polite_web_crawler.Prelude.{ℕ, ◌⊎◌, refl, true, String, [], ◌∷◌}
use polite_web_crawler.Common.Errors.{serde_error}
use polite_web_crawler.Common.Outcome.{Outcome, err}
use polite_web_crawler.Common.Data.{ParsedData}
use polite_web_crawler.Storage.Db.Pages.{StoredPage}
use polite_web_crawler.Storage.Service.Stored.{IsDuplicate}
use polite_web_crawler.Storage.Service.Simple.{env, keeping-IsCache, started, started-IsCoherent}
use polite_web_crawler.Storage.Consumer.Simple.{
  connections, entry, page, fresh, read_page, some_acknowledged,
}
use polite_web_crawler.Storage.Consumer.Acknowledged.{acknowledged_stored}
use polite_web_crawler.Storage.Consumer.Group.{
  added, reads, Group, ids, with_connections, unacknowledged, after_batch, read_new, group_step,
  group_run,
}
use polite_web_crawler.Storage.Consumer.Group.Pending.{IsStuck, pending_for_ever}
use polite_web_crawler.Storage.Consumer.{
  process_stream_entry, process_payload, save_read, after_entry, handle_entry, go_on, run_entries,
}

acknowledged_stored_example :
    StoredPage (handle_entry env read_page fresh entry connections).1.storage.tables page
    ⊎ IsDuplicate env started.dedup page
acknowledged_stored_example =
    acknowledged_stored env keeping-IsCache read_page fresh entry connections page "event"
      started-IsCoherent refl refl some_acknowledged

abbrev no_json : String → Outcome (ParsedData ℕ)
no_json text = err (serde_error "expected value")

-- The entry has been read, and it does not parse.
abbrev failed_once : Group env no_json
failed_once =
    group_step env no_json (reads (λ k. connections))
      (record { consumer = fresh; undelivered = entry ∷ []; pending = []; running = true })

failed_once-IsStuck : IsStuck env no_json "1-0" failed_once
unfolding group_step read_new ids with_connections after_batch unacknowledged run_entries go_on
    handle_entry process_stream_entry process_payload save_read after_entry
failed_once-IsStuck = record { pending = refl; not_acknowledged = refl; not_undelivered = tt }

pending_for_ever_example : IsStuck env no_json "1-0" (
    group_run env no_json
      (added (record entry { id = "2-0" }) ∷ reads (λ k. connections) ∷ [])
      failed_once)
pending_for_ever_example =
    pending_for_ever env no_json "1-0"
      (added (record entry { id = "2-0" }) ∷ reads (λ k. connections) ∷ []) failed_once (refl, tt)
      failed_once-IsStuck
