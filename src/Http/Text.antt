-- ===== src/Http/Text.antt =====
-- Text as bytes, with the functions of `str` that the program calls, and header maps. A
-- `HeaderMap` is an association list by names in lower case; `insert` replaces what was there.
pub mod Laws
use Prim.Native.Char.{code}
use Prim.Native.String.{String}
use text.Mathlib.Text.{◌==◌ as str_eq}
use hyper_ruby.Common.{
  ℕ, zero, suc, ◌+◌, ◌/◌, ◌%◌, Bool, true, false, ◌&&◌, ◌||◌, [], ◌∷◌, ◌++◌, List, Option, none,
  some, ltb, ◌==◌, if◌then◌else◌, Bytes,
}

-- The bytes of an ASCII literal.
abbrev pub codes : String → Bytes
codes String.[] = []
codes (String.◌∷◌ c s) = code c ∷ codes s

-- `text.starts_with(prefix)`
unfoldable pub starts_with : Bytes → Bytes → Bool
starts_with text [] = true
starts_with [] (p ∷ ps) = false
starts_with (c ∷ cs) (p ∷ ps) = c == p && starts_with cs ps

-- `text.contains(piece)`
unfoldable pub contains : Bytes → Bytes → Bool
unfolding starts_with
contains [] piece = starts_with [] piece
contains (c ∷ cs) piece = starts_with (c ∷ cs) piece || contains cs piece

abbrev on_first : ℕ → List Bytes → List Bytes
on_first c [] = (c ∷ []) ∷ []
on_first c (part ∷ parts) = (c ∷ part) ∷ parts

-- `text.split(separator)`, which has one part more than there are separators.
unfoldable pub split : ℕ → Bytes → List Bytes
split separator [] = [] ∷ []
split separator (c ∷ cs) =
    let rest = split separator cs in if c == separator then [] ∷ rest else on_first c rest

-- `.filter(|s| !s.is_empty())`
unfoldable pub non_empty : List Bytes → List Bytes
non_empty [] = []
non_empty ([] ∷ parts) = non_empty parts
non_empty ((c ∷ cs) ∷ parts) = (c ∷ cs) ∷ non_empty parts

-- `n.to_string()`, in decimal. A digit is taken off at each step, so `n + 1` steps are enough.
unfoldable pub digits_from : ℕ → ℕ → Bytes → Bytes
digits_from zero n acc = acc
digits_from (suc fuel) n acc =
    let d = b'0' + n % 10 in
    let rest = digits_from fuel (n / 10) (d ∷ acc) in if ltb n 10 then d ∷ acc else rest

unfoldable pub to_string : ℕ → Bytes
unfolding digits_from
to_string n = digits_from (suc n) n []

-- What the http crate checks: `HeaderName::try_from`, which gives the name in lower case, and which a
-- look into a map does as well; `HeaderValue::try_from`; and `StatusCode::try_from`.
pub record HeaderRules : Type 0 where
  pub parse_name : String → Option String
  pub is_value : Bytes → Bool
  pub is_status : ℕ → Bool

abbrev pub HeaderMap : Type 0
HeaderMap = List (String × Bytes)

unfoldable pub get : String → HeaderMap → Option Bytes
get name [] = none
get name ((key, value) ∷ rest) = if str_eq key name then some value else get name rest

unfoldable pub insert : String → Bytes → HeaderMap → HeaderMap
insert name value [] = (name, value) ∷ []
insert name value ((key, old) ∷ rest) =
    if str_eq key name then (key, value) ∷ rest else (key, old) ∷ insert name value rest
