-- ===== src/Worker/Core/Single/Tests.antt =====
-- Runs of `process_single_url`, and its theorem at a concrete input.
use polite_web_crawler.Worker.Core.Single.Learned.{IsJson, Learned, handle_unknown_domain-Learned}
use polite_web_crawler.Storage.Consumer.Processed.{processed}
use polite_web_crawler.Storage.Consumer.{StreamEntry, Connections, process_stream_entry}
use polite_web_crawler.Storage.Service.{save_parsed_data}
use polite_web_crawler.Common.Url.{parse_outcome}
use polite_web_crawler.Prelude.Dict.{lookup, insert}
use polite_web_crawler.Prelude.{
  ==_iff, ◌∷◌, true, some, String, ap, ◌∙◌, inl, inr, Bool-cases, str_eq, str_eq_iff, ◌&&◌, ◌==◌,
  ◌++◌, if◌then◌else◌, Option, ℕ, ◌≡◌, refl, sym, none, [], arith,
}
use polite_web_crawler.Common.Text.{ends_with}
use polite_web_crawler.Common.Errors.{not_allowed, internal}
use polite_web_crawler.Common.Outcome.{err, Outcome, ok}
use polite_web_crawler.Common.Data.{
  unknown_domain, from_domain_data, ParsedData, parsed_page as page_event, parsed_domain, allowed,
}
use polite_web_crawler.Common.Queue.{up, command}
use polite_web_crawler.Common.Rpc.{delivers, Transport}
use polite_web_crawler.Common.Url.Simple.{SimpleUrl}
use polite_web_crawler.Storage.Service.Obeyed.{Obeys}
use polite_web_crawler.Storage.Service.Simple.{
  saves_unruled, after_unruled, unruled, env, keeping-IsCache, started, working, started-IsCoherent,
  open_allowed, page_open,
}
use polite_web_crawler.Worker.Simple.{numbers, numbers-IsWireEnum, debug, simple_tools}
use polite_web_crawler.Worker.RateLimiter.{update_delay, new}
use polite_web_crawler.Worker.Fetcher.Wire.{Response, received, failed, bytes}
use polite_web_crawler.Worker.Fetcher.{
  get_domain_data, get_robot_list, domain_data, read_robots, get_page, is_blacklisted_extension,
  sent_outcome, read_page, is_page, body_text,
}
use polite_web_crawler.Worker.Fetcher.Retry.{with_retry}
use polite_web_crawler.Worker.Client.EndToEnd.{told, told_delivered}
use polite_web_crawler.Worker.Html as Html
use polite_web_crawler.Worker.Client as Client
use polite_web_crawler.Worker.Core.Single.Allowed.{robots_obeyed}
use polite_web_crawler.Worker.Core.Single.{
  Tools, handle_unknown_domain, with_domain, with_duration, with_delay, published, Replies, Crawl,
  process_single_url, with_access, is_sitemap, handle_allowed_domain, handle_host, delayed,
  download_and_parse_link, downloaded, parsed_page, saved,
}

abbrev idle_crawl : Crawl
idle_crawl = record { pages_crawled = 0; limiter = new 1_000_000_000; stream = []; requests = 0 }

abbrev delivering : Transport
delivering = delivers (record { code = internal; message = "reset" })

-- The storage allows the page, and it is answered at once.
abbrev replies : Replies SimpleUrl ℕ
replies = record {
  access = ok allowed;
  delay = ok 2;
  publishing = up;
  robots_txt = λ i u. failed "timeout";
  page = λ i.
      received (record { status = 200; content_type = none; url = page_open; body = bytes "hi" });
  sitemap = λ u i. failed "timeout";
  now = 0;
}

told_allowed :
    told numbers numbers-IsWireEnum debug env keeping-IsCache started "/open" page_open working refl
      delivering
    ≡ ok allowed
told_allowed =
    told_delivered numbers numbers-IsWireEnum debug env keeping-IsCache started "/open" page_open
      working refl (record { code = internal; message = "reset" }) allowed open_allowed

one_request : (process_single_url simple_tools replies page_open idle_crawl).1.requests ≡ 1
unfolding process_single_url with_access is_sitemap ends_with handle_allowed_domain handle_host
    delayed download_and_parse_link downloaded parsed_page saved get_page is_blacklisted_extension
    with_retry sent_outcome read_page is_page body_text Html.parse Client.save_parsed_page
    Client.publish_event command
one_request = refl

robots_obeyed_example : Obeys env keeping-IsCache started page_open
robots_obeyed_example =
    robots_obeyed numbers numbers-IsWireEnum debug env keeping-IsCache started simple_tools
      page_open working refl delivering replies idle_crawl started-IsCoherent (sym told_allowed)
      (λ e. omega (arith, e, one_request))

-- The one event is of a domain without robots.txt.
write_robots : String → ℕ → Option String → Outcome String
write_robots domain delay none =
    if str_eq domain "a.org" && delay == 0 then ok "event" else err not_allowed
write_robots domain delay (some rb) = err not_allowed

-- A JSON that has the one event.
write_one : ParsedData ℕ → Outcome String
unfolding write_robots
write_one (page_event p) = err not_allowed
write_one (parsed_domain d) = write_robots d.domain_string d.delay d.robots

abbrev read_one : String → Outcome (ParsedData ℕ)
read_one text = if str_eq text "event" then ok (parsed_domain unruled) else err not_allowed

written_event :
    (domain : String) (delay : ℕ) (robots : Option String) (text : String)
    → write_robots domain delay robots ≡ ok text
    → (domain ≡ "a.org") × (delay ≡ 0) × (robots ≡ none) × (text ≡ "event")
unfolding write_robots
written_event domain delay (some rb) text h = cc h
written_event domain delay none text h = elim (Bool-cases (str_eq domain "a.org")) [
  | inr other ↦ cc (rw other at h)
  | inl same ↦ elim (Bool-cases (delay == 0)) [
    | inr later ↦ cc (rw later at rw same at h)
    | inl now ↦ (
      (str_eq_iff domain "a.org").0 same,
      (==_iff delay 0).0 now,
      refl,
      cc (rw now at rw same at h),
    )
  ]
]

one-IsJson : IsJson write_one read_one
unfolding write_one
one-IsJson = record { reads_back = back }
  where
    back : (e : ParsedData ℕ) (text : String) → write_one e ≡ ok text → read_one text ≡ ok e
    back (page_event p) text h = cc h
    back (parsed_domain d) text h =
        let (name, zero_delay, no_robots, is_event) =
          written_event d.domain_string d.delay d.robots text h in
        rw is_event (
          ap (λ x. ok (parsed_domain x))
            (ap (λ n. record { domain_string = n; robots = none; delay = 0 }) (sym name)
              ∙ ap (λ o. record { domain_string = d.domain_string; robots = o; delay = 0 })
                  (sym no_robots)
              ∙ ap (λ n. record { domain_string = d.domain_string; robots = d.robots; delay = n })
                  (sym zero_delay)))

abbrev one_tools : Tools SimpleUrl String ℕ String
one_tools = record simple_tools { to_json = write_one }

abbrev page_of_a : SimpleUrl
page_of_a = record { host = some "a.org"; at = "/x"; number = 0 }

abbrev missing : Response SimpleUrl
missing = record { status = 404; content_type = none; url = page_of_a; body = bytes "" }

abbrev no_robots_txt : Replies SimpleUrl ℕ
no_robots_txt = record replies { access = ok unknown_domain; robots_txt = λ i u. received missing }

learns :
    ((handle_unknown_domain one_tools no_robots_txt page_of_a idle_crawl).0 ≡ ok [])
    × ((handle_unknown_domain one_tools no_robots_txt page_of_a idle_crawl).1.stream
        ≡ [] ++ "event" ∷ [])
unfolding handle_unknown_domain with_domain with_duration with_delay published
    Client.save_domain_data Client.publish_event command write_one write_robots get_domain_data
    get_robot_list domain_data with_retry sent_outcome read_robots parse_outcome update_delay lookup
    insert from_domain_data new
learns = (refl, refl)

abbrev entry : StreamEntry
entry = record { id = "1-0"; payload = some "event" }

abbrev conns : Connections
conns = record { looking = working; writing = working; links = λ i j. up; acks = true }

processes : process_stream_entry env read_one started entry conns ≡ (ok [], after_unruled)
unfolding save_parsed_data
processes =
    processed env read_one started entry conns (parsed_domain unruled) "event" refl refl
    ∙ saves_unruled

handle_unknown_domain-Learned_example :
    Learned numbers numbers-IsWireEnum debug env keeping-IsCache started after_unruled one_tools
      read_one one-IsJson page_of_a "/x" working refl delivering no_robots_txt page_of_a
handle_unknown_domain-Learned_example =
    handle_unknown_domain-Learned numbers numbers-IsWireEnum debug env keeping-IsCache started
      after_unruled one_tools read_one one-IsJson page_of_a "/x" working refl delivering
      no_robots_txt page_of_a idle_crawl [] "event" entry conns [] started-IsCoherent learns.0
      learns.1 refl processes refl
