-- ===== src/Common/Errors.antt =====
-- crates/common/src/error/crawler_error.rs. An error of another crate is carried as its text.
use polite_web_crawler.Prelude.{ℕ, String}

-- `tonic::Code`, of which the program makes two.
pub data Code : Type 0 where
  invalid_argument internal : Code
  other_code : ℕ → Code

-- `tonic::Status`
pub record Status : Type 0 where
  pub code : Code
  pub message : String

pub data CrawlerError : Type 0 where
  network : String → CrawlerError
  invalid_url : String → CrawlerError
  not_allowed : CrawlerError
  db_error : String → CrawlerError
  robot_parse_error : String → CrawlerError
  url_doesnt_contain_domain : CrawlerError
  no_xml_content : CrawlerError
  task_queue_error : String → CrawlerError
  join_error : String → CrawlerError
  serde_error : String → CrawlerError
  tonic_transport_error : String → CrawlerError
  grpc_error : Status → CrawlerError
  files_error : String → CrawlerError
