-- ===== src/Http/Response/Given.antt =====
-- What a handler gave to a response, read back from it.
use Prim.Native.String.{String}
use text.Mathlib.Text.{◌==◌ as str_eq}
use hyper_ruby.Common.{
  ℕ, Bool, true, false, [], ◌∷◌, List, Option, none, some, ◌≡◌, refl, sym, ap, ◌∙◌, arith, length,
  if◌then◌else◌, lt→ltb, Bytes,
}
use hyper_ruby.Http.Text.{codes, to_string, digits_from, HeaderMap, HeaderRules, get, insert}
use hyper_ruby.Http.Text.Laws.{get-insert}
use hyper_ruby.Http.Request.Params.{or_before, or_before-none}
use hyper_ruby.Http.Response.{
  HyperResponse, new_body, insert_one, insert_all, with_content, new_response, response_status,
  response_body,
}

module _ (rules : HeaderRules) where
  -- The headers that a handler may give.
  abbrev pub AllGiven : List (String × Bytes) → Type 0
  AllGiven [] = Unit {0}
  AllGiven ((key, value) ∷ rest) =
      ((name : String) × (rules.parse_name key ≡ some name) × (rules.is_value value ≡ true))
      × AllGiven rest

  -- The last value that the handler's hash has for a name, whichever case its keys are in.
  abbrev is_named : Option String → String → Bool
  is_named (some name) key = str_eq name key
  is_named none key = false

  unfoldable pub last_header : String → List (String × Bytes) → Option Bytes
  last_header key [] = none
  last_header key ((name, value) ∷ rest) =
      or_before (last_header key rest)
        (if is_named (rules.parse_name name) key then some value else none)

  -- What a handler's response has under a name: the length of the body, or what the handler gave.
  unfoldable pub expected : String → List (String × Bytes) → Bytes → Option Bytes
  unfolding last_header
  expected key given body =
      if str_eq "content-length" key then some (to_string (length body)) else last_header key given

  module _ (key : String) where
    -- What the headers given leave under the name.
    abbrev Inserted : List (String × Bytes) → HeaderMap → Type 0
    Inserted given m =
        (m' : HeaderMap) × (insert_all rules given m ≡ some m')
        × (get key m' ≡ or_before (last_header key given) (get key m))

    both_given :
        (name : String) (value : Bytes) (m : HeaderMap) (v : Option Bytes)
        → or_before v (get key (insert name value m))
          ≡ or_before (or_before v (if str_eq name key then some value else none)) (get key m)
    both_given name value m v = ground (arith, get-insert name key value m)

    Inserted-cons :
        (k name : String) (value : Bytes) (rest : List (String × Bytes)) (m : HeaderMap)
        → rules.parse_name k ≡ some name
        → rules.is_value value ≡ true
        → Inserted rest (insert name value m)
        → Inserted ((k, value) ∷ rest) m
    unfolding insert_all insert_one last_header
    Inserted-cons k name value rest m n v (m', e, g) = (
      m',
      rw (insert_all, insert_one, n, v) e,
      g
          ∙ both_given name value m (last_header key rest)
          ∙ ap
              (λ p.
                or_before
                  (or_before (last_header key rest) (if is_named p key then some value else none))
                  (get key m))
              (sym n),
    )

    AllGiven-Inserted :
        (given : List (String × Bytes)) (m : HeaderMap) → AllGiven given → Inserted given m
    unfolding insert_all last_header
    AllGiven-Inserted [] m a = (m, refl, refl)
    AllGiven-Inserted ((k, value) ∷ rest) m ((name, n, v), a) =
        Inserted-cons k name value rest m n v (AllGiven-Inserted rest (insert name value m) a)

    get-with_content :
        (status : ℕ) (given : List (String × Bytes)) (body : Bytes) (m : HeaderMap)
        → get key m ≡ last_header key given
        → get key (with_content rules status body m).headers ≡ expected key given body
    unfolding with_content expected to_string digits_from
    get-with_content status given [] m e = get-insert "content-length" key (codes "0") m ∙ rw e refl
    get-with_content status given (b ∷ bs) m e =
        rw (lt→ltb 0 (length (b ∷ bs)) (omega arith))
          (get-insert "content-length" key (to_string (length (b ∷ bs))) m ∙ rw e refl)

-- A response is made of a valid status and of headers whose names and values are valid. It has the
-- status and the body that it was made with, and under each name the last value that the handler
-- gave, whichever case the handler wrote the name in, but as `content-length` the length of the body,
-- whatever the handler gave for that.
pub new_response-given :
    (rules : HeaderRules) (status : ℕ) (given : List (String × Bytes)) (body : Bytes) (key : String)
    → rules.is_status status ≡ true
    → AllGiven rules given
    → (r : HyperResponse) × (new_response rules status given body ≡ some r)
      × (response_status r ≡ status)
      × (response_body r ≡ body)
      × (get key r.headers ≡ expected rules key given body)
unfolding response_status response_body new_response with_content new_body get
new_response-given rules status given body key s a =
    let (m, e, g) = AllGiven-Inserted rules key given [] a in
    (
      with_content rules status body m,
      rw (s, e) refl,
      refl,
      refl,
      get-with_content rules key status given body m
          (g ∙ or_before-none (last_header rules key given)),
    )
