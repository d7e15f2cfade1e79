-- ===== src/Common/Data.antt =====
-- crates/common/src/network/url_info.rs and crates/common/src/parsers/parsed_data.rs: the values that
-- the two services exchange.
use polite_web_crawler.Prelude.{Option, String}
use polite_web_crawler.Common.Text.{Text}

pub record NotParsedPageData (Url : Type 0) : Type 0 where
  pub url : Url
  pub content : String

pub record DomainData (F32 : Type 0) : Type 0 where
  pub domain_string : String
  pub robots : Option String
  pub delay : F32

pub data UrlAccess : Type 0 where
  allowed disallowed unknown_domain url_without_host : UrlAccess

pub record ParsedPageSaveData : Type 0 where
  pub title : Option Text
  pub description : Option Text
  pub clean_text : Option Text
  pub url : String

pub record DomainDataSaveData (F32 : Type 0) : Type 0 where
  pub domain_string : String
  pub robots : Option String
  pub delay : F32

unfoldable pub from_domain_data : {F32 : Type 0} → DomainData F32 → DomainDataSaveData F32
from_domain_data d = record { domain_string = d.domain_string; robots = d.robots; delay = d.delay }

pub data ParsedData (F32 : Type 0) : Type 0 where
  parsed_domain : DomainDataSaveData F32 → ParsedData F32
  parsed_page : ParsedPageSaveData → ParsedData F32
