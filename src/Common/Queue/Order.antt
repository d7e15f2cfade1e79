-- ===== src/Common/Queue/Order.antt =====
-- task_queue.rs: the URLs come out in the order in which they were pushed.
mod Tests
use polite_web_crawler.Prelude.{
  ℕ, zero, suc, ◌+◌, ◌≡◌, refl, sym, ◌∙◌, ap, Option, none, some, String, List, [], ◌∷◌, ◌++◌, map,
  arith, length,
}
use polite_web_crawler.Common.Outcome.{Outcome, ok, err, panic, ◌>>=◌}
use polite_web_crawler.Common.Url.{UrlApi, parse_outcome}
use polite_web_crawler.Common.Queue.{
  Link, up, command, push, push_bulk, take_front, parse_line, pop_front,
}

-- The pushes of one or several URLs.
pub data Push : Type 0 where
  one : String → Push
  bulk : List String → Push

unfoldable pub pushed : List Push → List String → List String
unfolding push push_bulk
pushed [] queue = queue
pushed (one url ∷ ps) queue = pushed ps (push up url queue).1
pushed (bulk urls ∷ ps) queue = pushed ps (push_bulk up urls queue).1

abbrev pub all_urls : List Push → List String
all_urls [] = []
all_urls (one url ∷ ps) = url ∷ all_urls ps
all_urls (bulk urls ∷ ps) = urls ++ all_urls ps

append_assoc : (xs ys zs : List String) → (xs ++ ys) ++ zs ≡ xs ++ (ys ++ zs)
append_assoc [] ys zs = refl
append_assoc (x ∷ xs) ys zs = ap (λ l. x ∷ l) (append_assoc xs ys zs)

append_one :
    (xs : List String) (y : String) (zs : List String) → (xs ++ y ∷ []) ++ zs ≡ xs ++ y ∷ zs
append_one [] y zs = refl
append_one (x ∷ xs) y zs = ap (λ l. x ∷ l) (append_one xs y zs)

append_nil : (xs : List String) → xs ++ [] ≡ xs
append_nil [] = refl
append_nil (x ∷ xs) = ap (λ l. x ∷ l) (append_nil xs)

push_bulk_lem : (urls queue : List String) → (push_bulk up urls queue).1 ≡ queue ++ urls
unfolding push_bulk command
push_bulk_lem [] queue = sym (append_nil queue)
push_bulk_lem (url ∷ urls) queue = refl

pushed_lem : (ps : List Push) (queue : List String) → pushed ps queue ≡ queue ++ all_urls ps
unfolding pushed push command
pushed_lem [] queue = sym (append_nil queue)
pushed_lem (one url ∷ ps) queue =
    pushed_lem ps (queue ++ url ∷ []) ∙ append_one queue url (all_urls ps)
pushed_lem (bulk urls ∷ ps) queue =
    pushed_lem ps (push_bulk up urls queue).1
    ∙ ap (λ q. q ++ all_urls ps) (push_bulk_lem urls queue)
    ∙ append_assoc queue urls (all_urls ps)

module _ {Url : Type 0} (urls : UrlApi Url) where
  -- Some reads over a connection that works, and what is left.
  unfoldable pub pops : ℕ → List String → List (Outcome (Option Url)) × List String
  unfolding pop_front
  pops zero queue = ([], queue)
  pops (suc n) queue =
      let (r, rest) = pop_front urls up queue in let (rs, left) = pops n rest in (r ∷ rs, left)

  -- What a read makes of a text that was pushed.
  abbrev pub read_back : String → Outcome (Option Url)
  read_back line = parse_outcome (urls.parse line) >>= λ u. ok (some u)

  pops_all :
      (lines more : List String) → pops (length lines) (lines ++ more) ≡ (map read_back lines, more)
  unfolding pops pop_front command take_front parse_line
  pops_all [] more = refl
  pops_all (line ∷ lines) more =
      ap (λ (x : List (Outcome (Option Url)) × List String). (read_back line ∷ x.0, x.1))
        (pops_all lines more)

  -- The queue is first in, first out, over a connection that works: after pushes of single URLs and of
  -- whole lists on a queue, as many reads as there are texts then yield those that were there before and
  -- behind them the pushed ones in the order of the pushes, each one parsed or as the error of its
  -- parse, and leave nothing.
  pub pops-pushed :
      (ps : List Push) (queue : List String)
      → pops (length (queue ++ all_urls ps)) (pushed ps queue)
        ≡ (map read_back (queue ++ all_urls ps), [])
  pops-pushed ps queue =
      ap (pops (length (queue ++ all_urls ps)))
        (pushed_lem ps queue ∙ sym (append_nil (queue ++ all_urls ps)))
      ∙ pops_all (queue ++ all_urls ps) []
