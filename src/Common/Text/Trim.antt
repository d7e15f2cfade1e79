-- ===== src/Common/Text/Trim.antt =====
-- `str::trim` on the texts that the crates take, and `str::split_whitespace`.
use Prim.Native.Char.{Char, code}
use polite_web_crawler.Prelude.{String, Bool, true, false, List, [], ◌∷◌, if◌then◌else◌}
use polite_web_crawler.Common.Text.{is_whitespace}

unfoldable pub string_is_empty : String → Bool
string_is_empty String.[] = true
string_is_empty (String.◌∷◌ c s) = false

unfoldable pub trim_string_start : String → String
unfolding is_whitespace
trim_string_start String.[] = String.[]
trim_string_start (String.◌∷◌ c s) =
    let rest = trim_string_start s in if is_whitespace (code c) then rest else String.◌∷◌ c s

unfoldable pub trim_string_end : String → String
unfolding string_is_empty is_whitespace
trim_string_end String.[] = String.[]
trim_string_end (String.◌∷◌ c s) =
    let rest = trim_string_end s in
    if string_is_empty rest
    then (if is_whitespace (code c) then String.[] else String.◌∷◌ c rest)
    else String.◌∷◌ c rest

unfoldable pub trim_string : String → String
unfolding trim_string_start trim_string_end
trim_string s = trim_string_end (trim_string_start s)

-- The words of a text: a white space ends the word before it.
join_word : Char → Bool → List String → List String
join_word c true ws = String.◌∷◌ c String.[] ∷ ws
join_word c false [] = String.◌∷◌ c String.[] ∷ []
join_word c false (w ∷ ws) = String.◌∷◌ c w ∷ ws

starts_blank : String → Bool
starts_blank String.[] = true
starts_blank (String.◌∷◌ c s) = is_whitespace (code c)

unfoldable pub split_whitespace : String → List String
unfolding join_word starts_blank
split_whitespace String.[] = []
split_whitespace (String.◌∷◌ c s) =
    let ws = split_whitespace s in
    if is_whitespace (code c) then ws else join_word c (starts_blank s) ws
