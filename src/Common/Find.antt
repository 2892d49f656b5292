-- ===== src/Common/Find.antt =====
-- `strings.HasPrefix`, `Index`, `LastIndex` and `Contains`, over bytes.
use mathlib.Core.Option
use mathlib.Core.Option.{Option, none, some}
use mathlib.Core.Bool.{Bool, true, false, ◌&&◌}
use mathlib.Core.List.{[], ◌∷◌}
use Prim.Native.Nat.{ℕ, suc, ◌-◌}
use alfa_hakaton.Common.Bools.{◌==◌, leb, if◌then◌else◌}
use alfa_hakaton.Common.Lists.{length, drop}
use alfa_hakaton.Common.Text.{Bytes, bytes_eq}

unfoldable pub has_prefix : Bytes → Bytes → Bool
has_prefix s [] = true
has_prefix [] (p ∷ ps) = false
has_prefix (c ∷ s) (p ∷ ps) = c == p && has_prefix s ps

unfoldable pub index : Bytes → Bytes → Option ℕ
unfolding has_prefix
index [] token = if has_prefix [] token then some 0 else none
index (c ∷ s) token =
    let later = Option.map suc (index s token) in if has_prefix (c ∷ s) token then some 0 else later

abbrev is_some {ℓ} : {A : Type ℓ} → Option A → Bool
is_some none = false
is_some (some a) = true

unfoldable pub contains : Bytes → Bytes → Bool
unfolding index
contains s token = is_some (index s token)

abbrev or_else {ℓ} : {A : Type ℓ} → Option A → Option A → Option A
or_else (some a) b = some a
or_else none b = b

unfoldable pub last_index : Bytes → Bytes → Option ℕ
unfolding has_prefix
last_index [] token = if has_prefix [] token then some 0 else none
last_index (c ∷ s) token =
    or_else (Option.map suc (last_index s token))
      (if has_prefix (c ∷ s) token then some 0 else none)

-- `strings.HasSuffix`.
unfoldable pub has_suffix : Bytes → Bytes → Bool
has_suffix s suffix =
    leb (length suffix) (length s) && bytes_eq (drop (length s - length suffix) s) suffix
