-- ===== src/Http/Answered.antt =====
-- What holds of the answers of internal/httpapi, if there is one.
use alfa_hakaton.Common.{ℕ, ◌≡◌, refl, subst, Bool, true, false, Bytes, Option, some, if◌then◌else◌}
use alfa_hakaton.Common.Sort.{SortSlice}
use alfa_hakaton.Mask.Restore.{restore}
use alfa_hakaton.Common.Result.{Result, ok}
use alfa_hakaton.Store.Types.{Record, StoreError}
use alfa_hakaton.Auth.{System}
use alfa_hakaton.Engine.Masking.{owns_record}
use alfa_hakaton.Http.Types.{Reply, failed, answered}
use alfa_hakaton.Http.Systems.{ServerConfig, options_for}

-- What holds of an answer, if there is one.
abbrev pub Answered : {A S : Type 0} → (A → Type 0) → Reply A × S → Type 0
Answered P (failed status message, s) = Unit
Answered P (answered a, s) = P a

pub Answered-guard :
    {A S : Type 0} (P : A → Type 0) (b : Bool) (status : ℕ) (message : Bytes) (s : S)
    (o : Reply A × S)
    → Answered P o
    → Answered P (if b then (failed status message, s) else o)
Answered-guard P true status message s o h = tt
Answered-guard P false status message s o h = h

-- The same, for what may use that the test has failed.
pub Answered-passed :
    {A S : Type 0} (P : A → Type 0) (b : Bool) (status : ℕ) (message : Bytes) (s : S)
    (o : Reply A × S)
    → (b ≡ false → Answered P o)
    → Answered P (if b then (failed status message, s) else o)
Answered-passed P true status message s o h = tt
Answered-passed P false status message s o h = h refl

pub Answered-either :
    {A S : Type 0} (P : A → Type 0) (b : Bool) (x y : Reply A) (s s' : S)
    → (b ≡ true → Answered P (x, s))
    → (b ≡ false → Answered P (y, s'))
    → Answered P (if b then (x, s) else (y, s'))
Answered-either P true x y s s' h k = h refl
Answered-either P false x y s s' h k = k refl

pub Answered_at :
    {A S : Type 0} (P : A → Type 0) (o : Reply A × S) (a : A)
    → o.0 ≡ answered a
    → Answered P o
    → P a
Answered_at P o a e h = subst (λ r. Answered P (r, o.1)) e h

-- The text of a request for unmasking was restored with the record that the store answered, which the
-- system owns.
pub record IsRestored (sort : SortSlice) (cfg : ServerConfig) (sys : System)
    (answer : Result StoreError (Option Record)) (text : Bytes) (out : Bytes) (misses : ℕ)
    : Type 0 where
  pub is_permitted : sys.unmask ≡ true
  pub rec : Record
  pub is_answered : answer ≡ ok (some rec)
  pub is_owned : owns_record rec (options_for cfg sys) ≡ true
  pub is_restored : restore sort text rec.replacements ≡ (out, misses)
