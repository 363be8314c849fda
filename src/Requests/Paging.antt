-- ===== src/Requests/Paging.antt =====
-- What the server reads of the query that the frontend's lib builds.
use secure_vault.Prelude.{
  ℕ, String, Option, none, some, [], ◌≡◌, refl, is_empty, if◌then◌else◌, ap, ◌∷◌, Bool, true, false,
}
use secure_vault.Prelude.Decimal.{parse_int, parse_int-to_string, ParsedInt, nonneg}
use secure_vault.Requests.{Query, page_query, get_param, append_text, append_count, Page}

-- The number that a parameter's text stands for, when there is one.
abbrev pub number_param : String → Query → Option ParsedInt
number_param name q = elim (get_param name q) [ none ↦ none | some s ↦ some (parse_int s) ]

abbrev pub as_parsed : Option ℕ → Option ParsedInt
as_parsed none = none
as_parsed (some n) = some (nonneg n)

-- A search that is missing or empty is not sent.
abbrev pub sent_text : Option String → Option String
sent_text none = none
sent_text (some s) = if is_empty s then none else some s

-- What is read of a query that has the search in front, or has none.
abbrev Reads : Option String → Option ℕ → Option ℕ → Query → Type 0
Reads search k l q =
    (get_param "search" q ≡ search)
    × (number_param "skip" q ≡ as_parsed k)
    × (number_param "limit" q ≡ as_parsed l)

after_text : (k l : Option ℕ) (t : Query) → Query
after_text k l t = append_count "limit" l (append_count "skip" k t)

with_search :
    (s : String) (k l : Option ℕ) → Reads (some s) k l (after_text k l (("search", s) ∷ []))
unfolding after_text append_count get_param
with_search s none none = (refl, refl, refl)
with_search s none (some l) = (refl, refl, ap some (parse_int-to_string l))
with_search s (some k) none = (refl, ap some (parse_int-to_string k), refl)
with_search s (some k) (some l) =
    (refl, ap some (parse_int-to_string k), ap some (parse_int-to_string l))

without_search : (k l : Option ℕ) → Reads none k l (after_text k l [])
unfolding after_text append_count get_param
without_search none none = (refl, refl, refl)
without_search none (some l) = (refl, refl, ap some (parse_int-to_string l))
without_search (some k) none = (refl, ap some (parse_int-to_string k), refl)
without_search (some k) (some l) =
    (refl, ap some (parse_int-to_string k), ap some (parse_int-to_string l))

maybe_search :
    (s : String) (k l : Option ℕ) (e : Bool)
    → Reads (if e then none else some s) k l (after_text k l (if e then [] else ("search", s) ∷ []))
maybe_search s k l true = without_search k l
maybe_search s k l false = with_search s k l

-- Whatever page is asked for, the query gives the server back the search, unless it is missing or empty, and the
-- very numbers of the rows to skip and to send, each only when it was given.
pub page_query-get_param :
    (p : Page)
    → (get_param "search" (page_query p []) ≡ sent_text p.search)
      × (number_param "skip" (page_query p []) ≡ as_parsed p.skip)
      × (number_param "limit" (page_query p []) ≡ as_parsed p.limit)
unfolding page_query append_text after_text
page_query-get_param p = go p.search
  where
    go :
        (t : Option String)
        → Reads
            (sent_text t)
            p.skip
            p.limit
            (page_query (record { search = t; skip = p.skip; limit = p.limit }) [])
    go none = without_search p.skip p.limit
    go (some s) = maybe_search s p.skip p.limit (is_empty s)
