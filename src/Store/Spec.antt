-- ===== src/Store/Spec.antt =====
-- internal/store/store.go: what a store keeps, as a dictionary, with no encoding, no cipher and no items.
use alfa_hakaton.Common.{ℕ, Bytes, bytes_eq, Option, if◌then◌else◌}
use alfa_hakaton.Common.Int.{ℤ}
use alfa_hakaton.Store.Types.{Record, Io, expiry_for}
use alfa_hakaton.Store.Api.{while_live}

-- The record that an id has at a time.
abbrev pub Dictionary : Type 0
Dictionary = ℕ → Bytes → Option Record

abbrev pub put : Io → Bytes → Record → ℤ → Dictionary → Dictionary
put io k rec ttl v t j = if bytes_eq k j then while_live (expiry_for io.now ttl) t rec else v t j
