-- ===== src/Worker/Html/Clean/Tests.antt =====
-- Runs of the parser, and its theorems at concrete inputs.
use polite_web_crawler.Prelude.{◌≡◌, refl, List, [], ◌∷◌}
use polite_web_crawler.Common.Text.{codes, is_whitespace}
use polite_web_crawler.Worker.Html.Clean.{NoAngle, clean_text-NoAngle}
use polite_web_crawler.Worker.Html.{
  trim_start, keep_before, trim_end, trim, find, up_to, slice, cut, piece, pieces, clean_text,
}
use polite_web_crawler.Common.Text.{Text}

abbrev texts : List Text
texts = codes "  Hello " ∷ codes "a > b < c" ∷ codes "  " ∷ []

cleaned_texts : clean_text texts ≡ codes "Hello a"
unfolding clean_text pieces piece cut find slice up_to trim trim_start trim_end keep_before
    is_whitespace
cleaned_texts = refl

clean_text-NoAngle_example : NoAngle (clean_text texts)
clean_text-NoAngle_example = clean_text-NoAngle texts
