-- ===== src/Worker/Fetcher/Domains.antt =====
-- link_fetcher.rs, `get_domain_data`: the domain that it is about.
use polite_web_crawler.Prelude.{ℕ, ◌≡◌, Option, none, some, String, Option-cases, inl, inr}
use polite_web_crawler.Common.Text.{Unicode}
use polite_web_crawler.Common.Errors.{robot_parse_error}
use polite_web_crawler.Common.Outcome.{ok, err, bind-eq-ok}
use polite_web_crawler.Common.Data.{DomainData}
use polite_web_crawler.Common.Url.{UrlApi, RobotApi, Floats, Read, read, unreadable}
use polite_web_crawler.Worker.Fetcher.Wire.{Http, Sent}
use polite_web_crawler.Worker.Fetcher.{domain_outcome, domain_data, get_domain_data}

module _ {Url Robot F32 : Type 0} (uni : Unicode) (api : UrlApi Url) (h : Http)
    (robots : RobotApi Robot F32) (f : Floats F32) where
  read_robot-name :
      (domain rb : String) (x : Read Robot) (d : DomainData F32)
      → (elim x [
        | unreadable e ↦ err (robot_parse_error e)
        | read robot ↦ ok (record {
          domain_string = domain;
          robots = some rb;
          delay = elim (robots.crawl_delay robot) [ none ↦ f.zero_f32 | some q ↦ q ];
        })
      ])
        ≡ ok d
      → d.domain_string ≡ domain
  read_robot-name domain rb (unreadable e) d k = cc k
  read_robot-name domain rb (read robot) d k = cc k

  domain_data-name :
      (agent domain : String) (rb : Option String) (d : DomainData F32)
      → domain_data uni api h robots f agent domain rb ≡ ok d
      → d.domain_string ≡ domain
  unfolding domain_data
  domain_data-name agent domain none d k = cc k
  domain_data-name agent domain (some rb) d k =
      read_robot-name domain rb (robots.new_robot agent rb) d k

  domain_outcome-host :
      (url : Url) (host : String)
      → domain_outcome uni api h url ≡ ok host
      → api.domain url ≡ some host
  unfolding domain_outcome
  domain_outcome-host url host k = elim (Option-cases (api.domain url)) [
    | inl hostless ↦ cc (hostless, k)
    | inr (other, has) ↦ cc (has, k)
  ]

  -- What was fetched for a URL is about the URL's domain.
  pub get_domain_data-host :
      (base : String → String → String) (agent : String) (url : Url) (answers : ℕ → Url → Sent Url)
      (d : DomainData F32)
      → get_domain_data uni api h robots f base agent url answers ≡ ok d
      → api.domain url ≡ some d.domain_string
  unfolding get_domain_data
  get_domain_data-host base agent url answers d k =
      let (host, named, rest) = bind-eq-ok (domain_outcome uni api h url) _ d k in
      let (rb, tried, made) = bind-eq-ok _ (domain_data uni api h robots f agent host) d rest in
      rw (domain_data-name agent host rb d made) (domain_outcome-host url host named)
