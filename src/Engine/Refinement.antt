-- ===== src/Engine/Refinement.antt =====
-- A store as a dictionary: what the requests of internal/engine/engine.go see of it.
pub mod Machine
pub mod Decided
pub mod Sequences
use alfa_hakaton.Common.{
  ℕ, ◌≡◌, ◌≤◌, ap, ◌∙◌, Bool, true, false, Bytes, bytes_eq, Option, none, some, if◌then◌else◌,
  arith,
}
use alfa_hakaton.Common.Int.{ℤ}
use alfa_hakaton.Common.Result.{ok}
use alfa_hakaton.Store.Types.{Record, Io, expiry_for, live_at}
use alfa_hakaton.Store.Api.{Store, while_live}
use alfa_hakaton.Store.Spec.{Dictionary, put}

-- From `from` on no record comes back that is not there.
abbrev pub IsFading : ℕ → Dictionary → Type 0
IsFading from v = (t u : ℕ) (k : Bytes) → from ≤ t → t ≤ u → v t k ≡ none → v u k ≡ none

expired_stays :
    (expiry : Option ℕ) (t u : ℕ) (rec : Record)
    → t ≤ u
    → while_live expiry t rec ≡ none
    → while_live expiry u rec ≡ none
unfolding live_at
expired_stays none t u rec h gone = gone
expired_stays (some e) t u rec h gone = ground arith

faded-if :
    (b : Bool) (x y x' y' : Option Record)
    → (x ≡ none → x' ≡ none)
    → (y ≡ none → y' ≡ none)
    → (if b then x else y) ≡ none
    → (if b then x' else y') ≡ none
faded-if true x y x' y' h k = h
faded-if false x y x' y' h k = k

pub put-IsFading :
    (from : ℕ) (io : Io) (key : Bytes) (rec : Record) (ttl : ℤ) (v : Dictionary)
    → IsFading from v
    → from ≤ io.now
    → IsFading io.now (put io key rec ttl v)
put-IsFading from io key rec ttl v f h t u k a b =
    faded-if (bytes_eq key k) _ _ _ _ (expired_stays (expiry_for io.now ttl) t u rec b)
      (f t u k (omega arith) b)

module _ (st : Store) where
  -- From `from` on the store shows the records of the dictionary.
  pub record Agrees (from : ℕ) (s : st.State) (v : Dictionary) : Type 0 where
    pub sound : st.IsSound s
    pub same : (t : ℕ) (k : Bytes) → from ≤ t → st.view s t k ≡ v t k
    pub fades : IsFading from v

  pub later : (t u : ℕ) (s : st.State) (v : Dictionary) → t ≤ u → Agrees t s v → Agrees u s v
  later t u s v h a = record {
    sound = a.sound;
    same = λ w k g. a.same w k (omega arith);
    fades = λ w x k g l. a.fades w x k (omega arith) l;
  }

  pub load-Agrees :
      (from : ℕ) (io : Io) (id : Bytes) (s : st.State) (v : Dictionary)
      → from ≤ io.now
      → Agrees from s v
      → (s' : st.State) × (st.load io id s ≡ (ok (v io.now (st.hash_id id)), s'))
        × Agrees io.now s' v
  load-Agrees from io id s v h a =
      let (s', e, sound, same) = st.load_lem io id s a.sound in
      (
        s',
        e ∙ ap (λ o. (ok o, s')) (a.same io.now (st.hash_id id) h),
        record {
          sound = sound;
          same = λ t k g. same t k g ∙ a.same t k (omega arith);
          fades = λ t u k g l. a.fades t u k (omega arith) l;
        },
      )

  -- A state that is written as the dictionary is.
  put-Agrees :
      (from : ℕ) (io : Io) (id : Bytes) (rec : Record) (ttl : ℤ) (s s' : st.State) (v : Dictionary)
      → from ≤ io.now
      → Agrees from s v
      → st.IsSound s'
      → ((t : ℕ) (k : Bytes)
          → st.view s' t k ≡ (
              if bytes_eq (st.hash_id id) k
              then while_live (expiry_for io.now ttl) t rec
              else st.view s t k))
      → Agrees io.now s' (put io (st.hash_id id) rec ttl v)
  put-Agrees from io id rec ttl s s' v h a sound written = record {
    sound = sound;
    same = λ t k g.
        written t k
        ∙ ap
            (λ o.
              if bytes_eq (st.hash_id id) k then while_live (expiry_for io.now ttl) t rec else o)
            (a.same t k (omega arith));
    fades = put-IsFading from io (st.hash_id id) rec ttl v a.fades h;
  }

  pub save-Agrees :
      (from : ℕ) (io : Io) (id : Bytes) (rec : Record) (ttl : ℤ) (s : st.State) (v : Dictionary)
      → st.IsReady io
      → st.IsStorable rec
      → from ≤ io.now
      → Agrees from s v
      → (s' : st.State) × (st.save io id rec ttl s ≡ (ok tt, s'))
        × Agrees io.now s' (put io (st.hash_id id) rec ttl v)
  save-Agrees from io id rec ttl s v ready storable h a =
      let (s', e, sound, written) = st.save_lem io id rec ttl s a.sound storable ready in
      (s', e, put-Agrees from io id rec ttl s s' v h a sound written)

  -- With nobody else at work a record that was absent at `from` is absent at the first write.
  pub save_new-Agrees :
      (from : ℕ) (io : Io) (id : Bytes) (rec : Record) (ttl : ℤ) (s : st.State) (v : Dictionary)
      → st.IsReady io
      → st.IsStorable rec
      → from ≤ io.now
      → v from (st.hash_id id) ≡ none
      → Agrees from s v
      → (s' : st.State) × (st.save_new io id rec ttl s ≡ (ok true, s'))
        × Agrees io.now s' (put io (st.hash_id id) rec ttl v)
  save_new-Agrees from io id rec ttl s v ready storable h absent a =
      let free =
        a.same io.now (st.hash_id id) h
        ∙ a.fades from io.now (st.hash_id id) (omega arith) h absent in
      let (s', e, sound, written) = st.save_new_lem io id rec ttl s a.sound storable ready free in
      (s', e, put-Agrees from io id rec ttl s s' v h a sound written)
