-- ===== src/Types/Laws.antt =====
-- The names of the metadata keys tell the keys apart.
use dovecot_ceph_plugin.Prelude.{ℕ, ◌≡◌, refl, Text, [], ◌∷◌, ◌⊎◌, inl, inr}
use dovecot_ceph_plugin.Types.{MetadataKey, other, mailbox_guid, cast_key, key_code, key_to_char}

-- The key that a stored name stands for: the cast of its first byte, of NUL for an empty name.
abbrev pub key_of_name : Text → MetadataKey
key_of_name [] = cast_key 0
key_of_name (c ∷ s) = cast_key c

-- A key that is one of the enumerators.
abbrev pub IsNamed : MetadataKey → Type 0
IsNamed k = cast_key (key_code k) ≡ k

-- A key's name casts back to the key, for every enumerator; a value that is no enumerator has the
-- empty name, which casts to a value that is no enumerator either.
pub key_of_name-key_to_char :
    (k : MetadataKey)
    → (key_of_name (key_to_char k) ≡ k)
      ⊎ ((c : ℕ) × (k ≡ other c) × (key_of_name (key_to_char k) ≡ other 0))
unfolding key_to_char cast_key
key_of_name-key_to_char (other c) = inr (c, refl, refl)
key_of_name-key_to_char mailbox_guid = inl refl
key_of_name-key_to_char _ = inl refl
