-- ===== src/Store/Memory/Race.antt =====
-- The steps that run beside the calls: the cleanup, and what another request may do between the two
-- steps of `Load`.
use alfa_hakaton.Common.{
  ℕ, ◌≤◌, ◌≡◌, refl, ap, ◌∙◌, subst, true, Bool-cases, Option-cases, Bytes, bytes_eq, bytes_eq_refl,
  bytes_eq_iff, [], ◌∷◌, Option, none, some, inl, inr, if◌then◌else◌,
}
use alfa_hakaton.Common.Result.{ok}
use alfa_hakaton.Common.Assoc
use alfa_hakaton.Common.Assoc.{IsUnique, lookup-delete}
use alfa_hakaton.Crypto.{Cipher}
use alfa_hakaton.Store.Types.{live_at}
use alfa_hakaton.Common.Int.{ℤ}
use alfa_hakaton.Store.Types.{Record, Io}
use alfa_hakaton.Store.Memory.{save, Entry, Items, hash_id, expired, cleanup, load_read, load_rest}
use alfa_hakaton.Store.Memory.Codec.{Json}
use alfa_hakaton.Store.Memory.Laws.{view, live_at_mono, view-delete}

-- What a cleanup leaves of an entry.
abbrev survivor : ℕ → Option Entry → Option Entry
survivor now none = none
survivor now (some e) = if expired e now then none else some e

lookup-cleanup :
    (now : ℕ) (items : Items) (k : Bytes)
    → IsUnique items
    → Assoc.lookup k (cleanup now items) ≡ survivor now (Assoc.lookup k items)
unfolding Assoc.lookup cleanup
lookup-cleanup now [] k u = refl
lookup-cleanup now ((j, e) ∷ items) k u = elim (Bool-cases (expired e now)) [
  | inl x ↦ elim (Bool-cases (bytes_eq j k)) [
    | inl f ↦
        rw (x, f)
          (lookup-cleanup now items k u.1
            ∙ ap (survivor now)
                (subst (λ z. Assoc.lookup z items ≡ none) ((bytes_eq_iff j k).0 f) u.0)
            ∙ rw x refl)
    | inr f ↦ rw (x, f) (lookup-cleanup now items k u.1)
  ]
  | inr x ↦ elim (Bool-cases (bytes_eq j k)) [
    | inl f ↦ rw (x, f, x)
    | inr f ↦ rw (x, f) (lookup-cleanup now items k u.1)
  ]
]

-- A cleanup removes no record that is live at its time or later: every view from then on is unchanged.
pub cleanup_keeps :
    (json : Json) (cipher : Cipher) (now t : ℕ) (items : Items) (k : Bytes)
    → IsUnique items
    → now ≤ t
    → view json cipher (cleanup now items) t k ≡ view json cipher items t k
unfolding view expired
cleanup_keeps json cipher now t items k u h =
    rw (lookup-cleanup now items k u) (elim (Option-cases (Assoc.lookup k items)) [
      | inl e ↦ rw e
      | inr (x, e) ↦ rw e (elim (Bool-cases (live_at x.expiry now)) [
        | inl l ↦ rw l
        | inr l ↦ rw (l, live_at_mono x.expiry now t h l)
      ])
    ])

-- `Load` reads an entry, finds it expired, and deletes by key under another lock. A record that another
-- request saves under the same id between the two steps is deleted with it: after such a `Load` the id
-- has no record at any time, though the save reported success.
pub load_drops_saved :
    (json : Json) (cipher : Cipher) (hmac : Bytes → Bytes → Bytes) (id : Bytes) (now : ℕ)
    (e : Entry) (io : Io) (rec : Record) (ttl : ℤ) (items items' : Items)
    → load_read json cipher hmac id items ≡ some e
    → expired e now ≡ true
    → save json cipher hmac io id rec ttl items ≡ (ok tt, items')
    → let after = load_rest json cipher hmac now id (load_read json cipher hmac id items) items' in
      (after.0 ≡ ok none)
      × ((t : ℕ) → view json cipher after.1 t (hash_id hmac cipher.key id) ≡ none)
unfolding load_rest
load_drops_saved json cipher hmac id now e io rec ttl items items' found dead saved =
    rw (found, load_rest, dead)
      (
        refl,
        λ t.
            view-delete json cipher (hash_id hmac cipher.key id) items' t
              (hash_id hmac cipher.key id)
            ∙ rw (bytes_eq_refl (hash_id hmac cipher.key id)),
      )
