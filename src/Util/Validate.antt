-- ===== src/Util/Validate.antt =====
-- When the metadata of a mail object is valid.
use dovecot_ceph_plugin.Prelude.{
  ◌+◌, ◌++◌, ◌==◌, not, ◌≡◌, ◌↔◌, ◌⊎◌, Bool, true, none, some, [], ◌∷◌, Text, Map, arith, every,
  is_digit, c_str, insert, lookup-insert, str_eq, codes, refl, false,
}
use dovecot_ceph_plugin.Types.{
  MetadataKey, mail_uid, received_time, physical_size, virtual_size, oldv1_flags, pvt_flags,
  mailbox_guid, guid, key_to_char,
}
use dovecot_ceph_plugin.Util.{
  is_numeric, is_numeric_optional, get_key_metadata, get_metadata, buffer_start, validate_metadata,
  fails, is_null,
}

-- The key is there with a value that has bytes, and what stands before its value's first NUL is a row of digits.
abbrev pub IsNumber : MetadataKey → Map Text → Type 0
IsNumber k m = (v : Text) × (get_key_metadata k m ≡ some v) × (every is_digit (c_str v) ≡ true)

abbrev pub IsPresent : MetadataKey → Map Text → Type 0
IsPresent k m = (v : Text) × (get_key_metadata k m ≡ some v)

pub record IsValidMail (m : Map Text) : Type 0 where
  pub uid : IsNumber mail_uid m
  pub received : IsNumber received_time m
  pub physical : IsNumber physical_size m
  pub virtual : IsNumber virtual_size m
  pub flags : (get_key_metadata oldv1_flags m ≡ none) ⊎ IsNumber oldv1_flags m
  pub pvt : (get_key_metadata pvt_flags m ≡ none) ⊎ IsNumber pvt_flags m
  pub mailbox : IsPresent mailbox_guid m
  pub mail : IsPresent guid m

module _ (k : MetadataKey) (m : Map Text) where
  number_lem : is_numeric (get_key_metadata k m) ≡ true → IsNumber k m
  unfolding is_numeric
  number_lem h = ground arith

  optional_lem :
      is_numeric_optional (get_key_metadata k m) ≡ true
      → (get_key_metadata k m ≡ none) ⊎ IsNumber k m
  unfolding is_numeric_optional
  optional_lem h = ground arith

  of_number : IsNumber k m → is_numeric (get_key_metadata k m) ≡ true
  unfolding is_numeric
  of_number h = ground arith

  of_optional :
      (get_key_metadata k m ≡ none) ⊎ IsNumber k m
      → is_numeric_optional (get_key_metadata k m) ≡ true
  unfolding is_numeric_optional
  of_optional h = ground arith

  present_lem : not (is_null (get_key_metadata k m)) ≡ true → IsPresent k m
  present_lem h = ground arith

  of_present : IsPresent k m → not (is_null (get_key_metadata k m)) ≡ true
  of_present h = ground arith

no_failures :
    (a b c d e f g h : Bool)
    → (fails a + fails b + fails c + fails d + fails e + fails f + fails g + fails h == 0) ≡ true
    → (a ≡ true)
      × (b ≡ true)
      × (c ≡ true)
      × (d ≡ true)
      × (e ≡ true)
      × (f ≡ true)
      × (g ≡ true)
      × (h ≡ true)
no_failures a b c d e f g h p = ground arith

-- Take values that end with a NUL, as the code writes them, or have no bytes (a value without a NUL is
-- taken as if one followed it). Metadata passes the validation exactly when the uid, the times and the
-- sizes are rows of digits, the two kinds of flags are absent or such rows, and both identifiers are
-- there. A value of no bytes counts as absent; any other is read up to its first NUL, and a row of no
-- digits, which a value gives that begins with a NUL, counts as a row.
pub validate_metadata_iff : (m : Map Text) → (validate_metadata m ≡ true) ↔ IsValidMail m
unfolding validate_metadata
validate_metadata_iff m = (to, from)
  where
    to : validate_metadata m ≡ true → IsValidMail m
    to h =
        let t = no_failures _ _ _ _ _ _ _ _ h in
        record {
          uid = number_lem mail_uid m t.0;
          received = number_lem received_time m t.1;
          physical = number_lem physical_size m t.2;
          virtual = number_lem virtual_size m t.3;
          flags = optional_lem oldv1_flags m t.4;
          pvt = optional_lem pvt_flags m t.5;
          mailbox = present_lem mailbox_guid m t.6;
          mail = present_lem guid m t.7;
        }

    from : IsValidMail m → validate_metadata m ≡ true
    from v = rw (
      of_number mail_uid m v.uid,
      of_number received_time m v.received,
      of_number physical_size m v.physical,
      of_number virtual_size m v.virtual,
      of_optional oldv1_flags m v.flags,
      of_optional pvt_flags m v.pvt,
      of_present mailbox_guid m v.mailbox,
      of_present guid m v.mail,
    )

-- A value that ends with its NUL has bytes.
pub buffer_start-stored : (s : Text) → buffer_start (some (s ++ 0 ∷ [])) ≡ some (s ++ 0 ∷ [])
unfolding buffer_start
buffer_start-stored [] = refl
buffer_start-stored (c ∷ s) = refl

-- Another key keeps its value when the uid is put in.
get-insert_uid :
    (k : MetadataKey) (v : Text) (m : Map Text)
    → str_eq (key_to_char mail_uid) (key_to_char k) ≡ false
    → get_key_metadata k (insert (key_to_char mail_uid) v m) ≡ get_key_metadata k m
unfolding get_key_metadata
get-insert_uid k v m h = rw (lookup-insert (key_to_char mail_uid) (key_to_char k) v m, h) refl

get_uid-insert :
    (m : Map Text)
    → get_key_metadata mail_uid (insert (key_to_char mail_uid) (0 ∷ []) m) ≡ some (0 ∷ [])
unfolding get_key_metadata get_metadata buffer_start key_to_char
get_uid-insert m = rw (lookup-insert (codes "U") (codes "U") (0 ∷ []) m) refl

-- Metadata that is valid stays valid when an empty value, stored with its NUL, is put in the place of
-- the uid: the uid is then no number that could be read.
pub validate_metadata_empty_uid :
    (m : Map Text)
    → validate_metadata m ≡ true
    → validate_metadata (insert (key_to_char mail_uid) (0 ∷ []) m) ≡ true
unfolding key_to_char
validate_metadata_empty_uid m h =
    let v = (validate_metadata_iff m).0 h in
    (validate_metadata_iff (insert (key_to_char mail_uid) (0 ∷ []) m)).1 (record {
      uid = ((0 ∷ []), get_uid-insert m, refl);
      received = rw (get-insert_uid received_time (0 ∷ []) m refl) v.received;
      physical = rw (get-insert_uid physical_size (0 ∷ []) m refl) v.physical;
      virtual = rw (get-insert_uid virtual_size (0 ∷ []) m refl) v.virtual;
      flags = rw (get-insert_uid oldv1_flags (0 ∷ []) m refl) v.flags;
      pvt = rw (get-insert_uid pvt_flags (0 ∷ []) m refl) v.pvt;
      mailbox = rw (get-insert_uid mailbox_guid (0 ∷ []) m refl) v.mailbox;
      mail = rw (get-insert_uid guid (0 ∷ []) m refl) v.mail;
    })
