-- ===== src/Metadata/Format.antt =====
-- The text form of a metadata entry and its parser.
use dovecot_ceph_plugin.Prelude.{
  ℕ, ◌-◌, ◌≡◌, refl, ap, ◌∙◌, ◌++◌, true, false, some, [], ◌∷◌, Text, arith, length, take, is_empty,
  free_of, split_on-append, split_on_last, length-append, take-append_left,
}
use dovecot_ceph_plugin.Types.{MetadataKey, key_to_char}
use dovecot_ceph_plugin.Metadata.{RadosMetadata, empty_metadata, convert, from_string, to_string}

take_init : (s : Text) (c : ℕ) → take (length (s ++ c ∷ []) - 1) (s ++ c ∷ []) ≡ s
take_init s c =
    let e : length (s ++ c ∷ []) - 1 ≡ length s = omega (arith, length-append s (c ∷ [])) in
    ap (λ n. take n (s ++ c ∷ [])) e ∙ take-append_left s (c ∷ [])

-- What `convert` stores prints as the key, an equals sign and the value.
pub to_string-convert :
    (k : MetadataKey) (v : Text) → to_string (convert k v) ≡ key_to_char k ++ b'=' ∷ v
unfolding to_string convert
to_string-convert k v = ap (λ t. key_to_char k ++ b'=' ∷ t) (take_init v 0)

-- A key and a value that is not empty, both without an equals sign, are read back from their
-- text form; the parser adds no NUL to the value.
pub from_string_pair :
    (key value : Text)
    → free_of b'=' key ≡ true
    → free_of b'=' value ≡ true
    → is_empty value ≡ false
    → from_string (key ++ b'=' ∷ value) (some empty_metadata)
      ≡ some (record { bl = value; key = key })
unfolding from_string
from_string_pair key [] hk hv ne = cc
from_string_pair key (c ∷ v) hk hv ne =
    rw (split_on-append b'=' key (c ∷ v) hk, split_on_last b'=' c v hv)

key_to_char_free : (k : MetadataKey) → free_of b'=' (key_to_char k) ≡ true
unfolding key_to_char
key_to_char_free (MetadataKey.other c) = refl
key_to_char_free _ = refl

-- A value that is not empty and has no equals sign: what `convert` stores of it is read back from its
-- text form with the same key, and with the value without its NUL.
pub from_string-to_string :
    (k : MetadataKey) (v : Text)
    → free_of b'=' v ≡ true
    → is_empty v ≡ false
    → from_string (to_string (convert k v)) (some empty_metadata)
      ≡ some (record { bl = v; key = key_to_char k })
from_string-to_string k v hv ne =
    rw (to_string-convert k v) (from_string_pair (key_to_char k) v (key_to_char_free k) hv ne)

-- Printing an entry that was parsed loses the last byte of its value: the parser stores no NUL,
-- and the printer drops the last byte.
pub to_string-from_string_loses :
    (key value : Text) (c : ℕ) (m : RadosMetadata)
    → free_of b'=' key ≡ true
    → free_of b'=' (value ++ c ∷ []) ≡ true
    → from_string (key ++ b'=' ∷ (value ++ c ∷ [])) (some empty_metadata) ≡ some m
    → to_string m ≡ key ++ b'=' ∷ value
unfolding to_string
to_string-from_string_loses key value c m hk hv e =
    let p : m ≡ record { bl = value ++ c ∷ []; key = key } =
      cc (from_string_pair key (value ++ c ∷ []) hk hv (ne value), e) in
    rw p (ap (λ t. key ++ b'=' ∷ t) (take_init value c))
  where
    ne : (v : Text) → is_empty (v ++ c ∷ []) ≡ false
    ne [] = refl
    ne (d ∷ v) = refl
