-- ===== src/Metadata.antt =====
-- src/librmb/rados-metadata.h: one metadata entry, a key with its bytes, and its text form.
pub mod Format
use dovecot_ceph_plugin.Prelude.{
  ℕ, ℤ, ◌-◌, ◌++◌, Option, none, some, List, [], ◌∷◌, Text, length, take, split_on, decimal,
  decimal_int, to_int,
}
use dovecot_ceph_plugin.Types.{MetadataKey, key_to_char}

pub record RadosMetadata : Type 0 where
  pub bl : Text
  pub key : Text

abbrev pub empty_metadata : RadosMetadata
empty_metadata = record { bl = []; key = [] }

-- The constructor from a key's text and a value: the value is stored with its terminating NUL.
unfoldable pub from_key_value : Text → Text → RadosMetadata
from_key_value key value = record { bl = value ++ 0 ∷ []; key = key }

-- `convert` of a string; the constructor from the same arguments calls it.
unfoldable pub convert : MetadataKey → Text → RadosMetadata
convert key value = record { bl = value ++ 0 ∷ []; key = key_to_char key }

-- `convert` of a `time_t` and of an `int`.
unfoldable pub convert_int : MetadataKey → ℤ → RadosMetadata
unfolding convert
convert_int key value = convert key (decimal_int value)

-- `convert` of an `uint`.
unfoldable pub convert_uint : MetadataKey → ℕ → RadosMetadata
unfolding convert
convert_uint key value = convert key (decimal value)

-- `convert` of a `size_t`, which goes through `int`.
unfoldable pub convert_size : MetadataKey → ℕ → RadosMetadata
unfolding convert to_int
convert_size key value = convert key (decimal_int (to_int value))

from_tokens : List Text → Option RadosMetadata → Option RadosMetadata
from_tokens (key ∷ value ∷ []) (some m) = some (record { bl = m.bl ++ value; key = key })
from_tokens _ m = none

-- `none` is the result `false`; the second argument is the object that the pointer leads to.
unfoldable pub from_string : Text → Option RadosMetadata → Option RadosMetadata
unfolding from_tokens
from_string str m = from_tokens (split_on b'=' str) m

-- `bl.length() - 1` of an empty buffer is the greatest `unsigned`, and `substr` then takes all of it.
unfoldable pub to_string : RadosMetadata → Text
to_string m = m.key ++ b'=' ∷ take (length m.bl - 1) m.bl
