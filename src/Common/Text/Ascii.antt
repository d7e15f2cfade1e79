-- ===== src/Common/Text/Ascii.antt =====
-- The ASCII part of the Unicode tables, on which the tests run.
use polite_web_crawler.Prelude.{ℕ, ◌+◌, Bool, ◌&&◌, ◌||◌, map, leb, if◌then◌else◌}
use polite_web_crawler.Common.Text.{Unicode}

abbrev pub ascii_alphanumeric : ℕ → Bool
ascii_alphanumeric c =
    (leb b'0' c && leb c b'9') || (leb b'a' c && leb c b'z') || (leb b'A' c && leb c b'Z')

abbrev pub ascii_lower : ℕ → ℕ
ascii_lower c = if leb b'A' c && leb c b'Z' then c + 32 else c

abbrev pub ascii : Unicode
ascii = record { is_alphanumeric = ascii_alphanumeric; to_lowercase = map ascii_lower }
