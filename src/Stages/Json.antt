-- ===== src/Stages/Json.antt =====
-- infra/src/stages.cpp: `extract_json_string`, `extract_json_int` and `extract_json_float`. The regular
-- expressions match at one length only where they match, so the search is the first place from the
-- left at which the pattern fits. The keys of the program have no special characters.
use stv_renew.Prelude.Float.{Float, float_zero}
use stv_renew.Prelude.Int.{ℤ, pos}
use stv_renew.Prelude.Numbers.{stof, stoi, is_digit, float_ratio}
use Prim.Native.Char.{code}
use stv_renew.Prelude.{
  ℕ, Bool, ◌&&◌, ◌||◌, leb, ◌==◌, String, Option, none, some, is_empty, concat, [], ◌∷◌,
  if◌then◌else◌, ◌≡◌, refl,
}

-- The text behind a literal prefix.
unfoldable pub after_prefix : String → String → Option String
after_prefix String.[] s = some s
after_prefix (String.◌∷◌ p ps) String.[] = none
after_prefix (String.◌∷◌ p ps) (String.◌∷◌ c s) =
    let rest = after_prefix ps s in if code p == code c then rest else none

-- `\s`.
abbrev pub is_space : ℕ → Bool
is_space c = c == 32 || (leb 9 c && leb c 13)

unfoldable pub skip_space : String → String
skip_space String.[] = String.[]
skip_space (String.◌∷◌ c s) =
    let rest = skip_space s in if is_space (code c) then rest else String.◌∷◌ c s

-- `[^"]*"`: the text up to the next quote.
unfoldable pub until_quote : String → Option String
until_quote String.[] = none
until_quote (String.◌∷◌ c s) =
    let rest = until_quote s in
    if code c == 34
    then some String.[]
    else elim rest [ none ↦ none | some t ↦ some (String.◌∷◌ c t) ]

-- The characters from the start on that pass a test.
unfoldable pub take_while : (ℕ → Bool) → String → String
take_while test String.[] = String.[]
take_while test (String.◌∷◌ c s) =
    let rest = take_while test s in if test (code c) then String.◌∷◌ c rest else String.[]

-- `(\d+)` and `([0-9.]+)`.
unfoldable pub one_or_more : (ℕ → Bool) → String → Option String
unfolding take_while
one_or_more test s = let t = take_while test s in if is_empty t then none else some t

-- `"key"\s*:\s*` at the start of the text, and then the value.
unfoldable pub match_field : (String → Option String) → String → String → Option String
unfolding after_prefix skip_space
match_field value key s = elim (after_prefix (concat ("\"" ∷ key ∷ "\"" ∷ [])) s) [
  | none ↦ none
  | some rest ↦ elim (after_prefix ":" (skip_space rest)) [
    | none ↦ none
    | some t ↦ value (skip_space t)
  ]
]

-- `std::regex_search`.
unfoldable pub search_field : (String → Option String) → String → String → Option String
unfolding match_field
search_field value key String.[] = match_field value key String.[]
search_field value key (String.◌∷◌ c s) =
    let later = search_field value key s in
    elim (match_field value key (String.◌∷◌ c s)) [ some v ↦ some v | none ↦ later ]

-- The value of a string field behind its opening quote.
unfoldable pub quoted : String → Option String
unfolding after_prefix until_quote
quoted s = elim (after_prefix "\"" s) [ none ↦ none | some t ↦ until_quote t ]

unfoldable pub extract_json_string : String → String → String
unfolding search_field quoted
extract_json_string json key = elim (search_field quoted key json) [ none ↦ "" | some v ↦ v ]

-- `none` if `std::stoi` throws.
unfoldable pub extract_json_int : String → String → Option ℤ
unfolding search_field one_or_more stoi
extract_json_int json key = elim (search_field (one_or_more is_digit) key json) [
  | none ↦ some (pos 0)
  | some v ↦ stoi v
]

-- `none` if `std::stof` throws.
unfoldable pub extract_json_float : String → String → Option Float
unfolding search_field one_or_more stof
extract_json_float json key =
    elim (search_field (one_or_more (λ c. is_digit c || c == 46)) key json) [
      | none ↦ some float_zero
      | some v ↦ stof v
    ]

extracted : Unit {0}
unfolding extract_json_string extract_json_int extract_json_float
extracted = tt

string_field : extract_json_string "{\"a\": 1, \"image_path\" : \"x.png\"}" "image_path" ≡ "x.png"
unfolding extracted
string_field = refl

int_field : extract_json_int "{\"n\":42}" "n" ≡ some (pos 42)
unfolding extracted
int_field = refl

float_field : extract_json_float "{\"d\": 2.5}" "d" ≡ some (float_ratio 5 2)
unfolding extracted
float_field = refl

-- A lone point matches the pattern, and `std::stof` throws.
lone_point : extract_json_float "{\"d\": .}" "d" ≡ none
unfolding extracted
lone_point = refl
