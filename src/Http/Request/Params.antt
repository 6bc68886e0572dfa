-- ===== src/Http/Request/Params.antt =====
-- Query parameters that occur more than once.
use hyper_ruby.Common.{
  [], ◌∷◌, List, Option, none, some, ◌≡◌, refl, ◌∙◌, arith, Bytes, equal, equal_refl, equal→eq,
  if◌then◌else◌, Bool-cases, inl, inr,
}
use hyper_ruby.Http.Request.{HyperRequest, first_value, aset, aset_all, query_param, query_params}

abbrev pub or_before : Option Bytes → Option Bytes → Option Bytes
or_before (some v) earlier = some v
or_before none earlier = earlier

-- The value of the last pair with a key.
unfoldable pub last_value : Bytes → List (Bytes × Bytes) → Option Bytes
last_value key [] = none
last_value key ((k, v) ∷ rest) =
    or_before (last_value key rest) (if equal k key then some v else none)

first_value-aset :
    (key k v : Bytes) (hash : List (Bytes × Bytes))
    → first_value key (aset k v hash) ≡ (if equal k key then some v else first_value key hash)
unfolding first_value aset
first_value-aset key k v [] = refl
first_value-aset key k v ((j, w) ∷ hash) = elim (Bool-cases (equal j k)) [
  | inl same ↦ rw same (rw (equal→eq j k same) (ground arith))
  | inr other ↦ rw other (
      ground (arith, first_value-aset key k v hash, equal→eq j key, equal→eq k key, equal_refl key))
]

first_value-aset_all :
    (key : Bytes) (pairs hash : List (Bytes × Bytes))
    → first_value key (aset_all pairs hash)
      ≡ or_before (last_value key pairs) (first_value key hash)
unfolding aset_all last_value
first_value-aset_all key [] hash = refl
first_value-aset_all key ((k, v) ∷ rest) hash =
    ground (arith, first_value-aset_all key rest (aset k v hash), first_value-aset key k v hash)

pub or_before-none : (v : Option Bytes) → or_before v none ≡ v
or_before-none (some v) = refl
or_before-none none = refl

-- Of the values that a query gives to a key, `query_params` has the last, and `query_param` the
-- first.
pub query_params-last :
    (form : Bytes → List (Bytes × Bytes)) (r : HyperRequest) (q key : Bytes)
    → r.query ≡ some q
    → (first_value key (query_params form r) ≡ last_value key (form q))
      × (query_param form key r ≡ first_value key (form q))
unfolding query_params query_param first_value last_value
query_params-last form r q key e = (
  rw e (first_value-aset_all key (form q) [] ∙ or_before-none (last_value key (form q))),
  rw e refl,
)
