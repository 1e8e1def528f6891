-- ===== src/Types.antt =====
-- src/librmb/rados-types.h: the keys under which a mail object's metadata is stored.
pub mod Laws
use dovecot_ceph_plugin.Prelude.{ℕ, Text, codes, [], if◌then◌else◌, ◌==◌}

-- `enum rbox_metadata_key`. The code casts any byte to this type, so `other` stands for a value
-- that no enumerator has.
pub data MetadataKey : Type 0 where
  mailbox_guid guid pop3_uidl pop3_order received_time physical_size virtual_size : MetadataKey
  ext_ref orig_mailbox mail_uid version from_envelope pvt_flags oldv1_expunged : MetadataKey
  oldv1_flags oldv1_keywords oldv1_save_time oldv1_space : MetadataKey
  other : ℕ → MetadataKey

-- The enumerators' values.
unfoldable pub key_code : MetadataKey → ℕ
key_code mailbox_guid = b'M'
key_code guid = b'G'
key_code pop3_uidl = b'P'
key_code pop3_order = b'O'
key_code received_time = b'R'
key_code physical_size = b'Z'
key_code virtual_size = b'V'
key_code ext_ref = b'X'
key_code orig_mailbox = b'B'
key_code mail_uid = b'U'
key_code version = b'I'
key_code from_envelope = b'A'
key_code pvt_flags = b'C'
key_code oldv1_expunged = b'E'
key_code oldv1_flags = b'F'
key_code oldv1_keywords = b'K'
key_code oldv1_save_time = b'S'
key_code oldv1_space = 32
key_code (other c) = c

-- `static_cast<enum rbox_metadata_key>(c)`.
unfoldable pub cast_key : ℕ → MetadataKey
cast_key c =
    if c == b'M'
    then mailbox_guid
    else if c == b'G'
    then guid
    else if c == b'P'
    then pop3_uidl
    else if c == b'O'
    then pop3_order
    else if c == b'R'
    then received_time
    else if c == b'Z'
    then physical_size
    else if c == b'V'
    then virtual_size
    else if c == b'X'
    then ext_ref
    else if c == b'B'
    then orig_mailbox
    else if c == b'U'
    then mail_uid
    else if c == b'I'
    then version
    else if c == b'A'
    then from_envelope
    else if c == b'C'
    then pvt_flags
    else if c == b'E'
    then oldv1_expunged
    else if c == b'F'
    then oldv1_flags
    else if c == b'K'
    then oldv1_keywords
    else if c == b'S'
    then oldv1_save_time
    else if c == 32
    then oldv1_space
    else other c

-- `rbox_metadata_key_to_char`, with its default branch.
unfoldable pub key_to_char : MetadataKey → Text
key_to_char mailbox_guid = codes "M"
key_to_char guid = codes "G"
key_to_char pop3_uidl = codes "P"
key_to_char pop3_order = codes "O"
key_to_char received_time = codes "R"
key_to_char physical_size = codes "Z"
key_to_char virtual_size = codes "V"
key_to_char ext_ref = codes "X"
key_to_char orig_mailbox = codes "B"
key_to_char mail_uid = codes "U"
key_to_char version = codes "I"
key_to_char from_envelope = codes "A"
key_to_char pvt_flags = codes "C"
key_to_char oldv1_expunged = codes "E"
key_to_char oldv1_flags = codes "F"
key_to_char oldv1_keywords = codes "K"
key_to_char oldv1_save_time = codes "S"
key_to_char oldv1_space = codes " "
key_to_char (other c) = []
