-- ===== src/Http/Text/Laws.antt =====
-- Reading what was put into a header map.
use Prim.Native.String.{String}
use text.Mathlib.Text.{◌==◌ as str_eq}
use text.Mathlib.TextEquality.{eq_iff}
use hyper_ruby.Common.{[], ◌∷◌, some, ◌≡◌, refl, arith, if◌then◌else◌, Bytes}
use hyper_ruby.Http.Text.{HeaderMap, get, insert}

pub get-insert :
    (k j : String) (v : Bytes) (m : HeaderMap)
    → get j (insert k v m) ≡ (if str_eq k j then some v else get j m)
unfolding get insert
get-insert k j v [] = refl
get-insert k j v ((i, w) ∷ m) =
    ground (arith, eq_iff k j, eq_iff i k, eq_iff i j, get-insert k j v m)
