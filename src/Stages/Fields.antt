-- ===== src/Stages/Fields.antt =====
-- Reading back a string field that was written into a text.
use text.Mathlib.TextLemmas.{nil-append, cons-append, append_assoc}
use Prim.Native.Char.{code, Char}
use Prim.Native.String.{◌++◌ as str_append}
use stv_renew.Prelude.{
  ◌≡◌, refl, sym, ◌∙◌, ap, Bool, false, ◌||◌, ◌==◌, String, [], ◌∷◌, none, some, concat, arith,
}
use stv_renew.Stages.Json.{
  after_prefix, until_quote, quoted, match_field, search_field, extract_json_string, skip_space,
}

abbrev pub has_quote : String → Bool
has_quote String.[] = false
has_quote (String.◌∷◌ c s) = code c == 34 || has_quote s

-- `"key":"value"`, and what follows.
abbrev pub field : (key value rest : String) → String
field key value rest =
    str_append "\"" (str_append key (str_append "\":\"" (str_append value (str_append "\"" rest))))

after_prefix-append : (p s : String) → after_prefix p (str_append p s) ≡ some s
unfolding after_prefix
after_prefix-append String.[] s = rw (nil-append s) refl
after_prefix-append (String.◌∷◌ c p) s =
    rw (cons-append c p s) (ground (arith, after_prefix-append p s))

until_quote-append :
    (v rest : String)
    → has_quote v ≡ false
    → until_quote (str_append v (str_append "\"" rest)) ≡ some v
unfolding until_quote
until_quote-append String.[] rest h =
    rw (nil-append (str_append "\"" rest)) (rw (cons-append "\"" "" rest) refl)
until_quote-append (String.◌∷◌ c v) rest h =
    rw (cons-append c v (str_append "\"" rest)) (ground (arith, until_quote-append v rest))

-- The pattern of a key at its own field.
after_key :
    (key t : String)
    → after_prefix
        (concat ("\"" ∷ key ∷ "\"" ∷ []))
        (str_append "\"" (str_append key (str_append "\"" t)))
      ≡ some t
after_key key t =
    ap (after_prefix (concat ("\"" ∷ key ∷ "\"" ∷ []))) (
      sym (
        append_assoc "\"" (str_append key "\"") t ∙ ap (str_append "\"") (append_assoc key "\"" t)))
    ∙ after_prefix-append (concat ("\"" ∷ key ∷ "\"" ∷ [])) t

colon_quote :
    (t : String) → str_append "\":\"" t ≡ str_append "\"" (String.◌∷◌ ":" (String.◌∷◌ "\"" t))
colon_quote t =
    rw
      (
        cons-append "\"" ":\"" t,
        cons-append ":" "\"" t,
        cons-append "\"" "" t,
        nil-append t,
        cons-append "\"" "" (String.◌∷◌ ":" (String.◌∷◌ "\"" t)),
        nil-append (String.◌∷◌ ":" (String.◌∷◌ "\"" t)),
      )
      refl

match_field-field :
    (key value rest : String)
    → has_quote value ≡ false
    → match_field quoted key (field key value rest) ≡ some value
unfolding match_field quoted after_prefix skip_space
match_field-field key value rest h =
    let t = str_append value (str_append "\"" rest) in
    let shaped : field key value rest
        ≡ str_append "\"" (str_append key (str_append "\"" (String.◌∷◌ ":" (String.◌∷◌ "\"" t)))) =
      ap (λ x. str_append "\"" (str_append key x)) (colon_quote t) in
    rw (shaped, after_key key (String.◌∷◌ ":" (String.◌∷◌ "\"" t)), match_field)
      (until_quote-append value rest h)

other_first :
    (rest : String) (c : Char) (s : String)
    → (code c == 34) ≡ false
    → after_prefix (str_append "\"" rest) (String.◌∷◌ c s) ≡ none
unfolding after_prefix
other_first rest c s h = rw (cons-append "\"" "" rest, nil-append rest) (ground arith)

-- Before its own place the field is not found.
no_match :
    (key : String) (c : Char) (s : String)
    → (code c == 34) ≡ false
    → match_field quoted key (String.◌∷◌ c s) ≡ none
unfolding match_field after_prefix
no_match key c s h = rw (other_first (str_append key "\"") c s h, match_field) refl

search_here :
    (key s v : String) → match_field quoted key s ≡ some v → search_field quoted key s ≡ some v
unfolding search_field
search_here key String.[] v h = h
search_here key (String.◌∷◌ c s) v h = rw (h, search_field) refl

search_field-append :
    (pre key value rest : String)
    → has_quote pre ≡ false
    → has_quote value ≡ false
    → search_field quoted key (str_append pre (field key value rest)) ≡ some value
unfolding search_field
search_field-append String.[] key value rest h v =
    rw (nil-append (field key value rest))
      (search_here key (field key value rest) value (match_field-field key value rest v))
search_field-append (String.◌∷◌ c pre) key value rest h v =
    rw
      (
        cons-append c pre (field key value rest),
        no_match key c (str_append pre (field key value rest)) (ground arith),
        search_field,
      )
      (search_field-append pre key value rest (ground arith) v)

-- A text field is read back as it was written, behind any text without a quote and before any other,
-- if the value has no quote itself; it is not unescaped.
pub extract_json_string-field :
    (pre key value rest : String)
    → has_quote pre ≡ false
    → has_quote value ≡ false
    → extract_json_string (str_append pre (field key value rest)) key ≡ value
unfolding extract_json_string
extract_json_string-field pre key value rest h v =
    rw (search_field-append pre key value rest h v, extract_json_string) refl
