-- ===== src/Save/Entries/Valid.antt =====
-- Whether the metadata that a save writes is valid.
use dovecot_ceph_plugin.Prelude.{
  ℕ, ◌<◌, ◌++◌, pos, to_int, Bool, true, false, not, ◌&&◌, ◌||◌, ◌≡◌, refl, ap, Option, none, some,
  List, [], ◌∷◌, Text, Map, c_str, str_eq, decimal, decimal_int, decimal_digits, is_digit, is_space,
  every, lookup, lookup-insert, arith, ◌==◌, if◌then◌else◌,
}
use dovecot_ceph_plugin.Types.{
  MetadataKey, mailbox_guid, guid, received_time, physical_size, virtual_size, mail_uid, pvt_flags,
  oldv1_flags, key_to_char,
}
use dovecot_ceph_plugin.Metadata.{RadosMetadata, convert, convert_int, convert_uint, convert_size}
use dovecot_ceph_plugin.Util.{
  get_key_metadata, get_metadata, buffer_start, is_numeric, is_numeric_optional, validate_metadata,
  flags_to_string,
}
use dovecot_ceph_plugin.Util.Validate.{buffer_start-stored}
use dovecot_ceph_plugin.Config.{JsonConfig, is_mail_attribute}
use dovecot_ceph_plugin.Attributes.{MailObject, new_mail_object, add_metadata}
use dovecot_ceph_plugin.Save.Entries.{
  SaveData, add_if, add_some, add_keywords, size_or, stores, set_identifiers, set_pop3, set_sizes,
  set_flags, set_mail_metadata,
}

-- The value of a key after an entry was added, or was not.
lookup-add_if :
    (b : Bool) (m : RadosMetadata) (mail : MailObject) (j : Text)
    → lookup j (add_if b m mail).metadata
      ≡ (if str_eq m.key j && b then some m.bl else lookup j mail.metadata)
unfolding add_if
lookup-add_if true m mail j = ground (arith, lookup-insert m.key j m.bl mail.metadata)
lookup-add_if false m mail j = ground arith

-- What a value is under its key, where there is one.
or_old : Option Text → Option Text → Option Text
or_old none old = old
or_old (some v) old = some (v ++ 0 ∷ [])

lookup-add_some :
    (b : Bool) (k : MetadataKey) (v : Option Text) (mail : MailObject) (j : Text)
    → lookup j (add_some b k v mail).metadata ≡ (
        if str_eq (key_to_char k) j && b
        then or_old v (lookup j mail.metadata)
        else lookup j mail.metadata)
unfolding add_some convert or_old
lookup-add_some b k none mail j = ground arith
lookup-add_some b k (some v) mail j = lookup-add_if b (convert k v) mail j

metadata-add_keywords :
    (kws : List (ℕ × Text)) (mail : MailObject) → (add_keywords kws mail).metadata ≡ mail.metadata
unfolding add_keywords
metadata-add_keywords [] mail = refl
metadata-add_keywords ((i, k) ∷ kws) mail = metadata-add_keywords kws _

lookup_keywords :
    (b : Bool) (kws : List (ℕ × Text)) (mail : MailObject) (j : Text)
    → lookup j (if b then add_keywords kws mail else mail).metadata ≡ lookup j mail.metadata
lookup_keywords true kws mail j = ap (lookup j) (metadata-add_keywords kws mail)
lookup_keywords false kws mail j = refl

c_str-digits : (s : Text) → every is_digit s ≡ true → c_str (s ++ 0 ∷ []) ≡ s
c_str-digits [] h = refl
c_str-digits (c ∷ s) h = ground (arith, c_str-digits s)

-- A printed number is read as a number.
is_numeric-decimal : (n : ℕ) → is_numeric (some (decimal n ++ 0 ∷ [])) ≡ true
unfolding is_numeric
is_numeric-decimal n = rw (c_str-digits (decimal n) (decimal_digits n).0) (decimal_digits n).0

-- The flags' text is a row of digits, or empty: the test for what passes the validation.
unfoldable pub passes : ℕ → Bool
passes flags = flags == 0 || is_space flags || is_digit flags

-- The value of an entry that is kept for flags.
abbrev kept_flags : Bool → ℕ → Option Text
kept_flags b flags =
    if b && not (flags == 0) then some (flags_to_string flags [] ++ 0 ∷ []) else none

buffer_start-kept :
    (b : Bool) (s : Text)
    → buffer_start (if b then some (s ++ 0 ∷ []) else none)
      ≡ (if b then some (s ++ 0 ∷ []) else none)
unfolding buffer_start
buffer_start-kept true s = buffer_start-stored s
buffer_start-kept false s = refl

numeric_flags :
    (b : Bool) (flags : ℕ) → is_numeric_optional (kept_flags b flags) ≡ (not b || passes flags)
unfolding is_numeric_optional is_numeric flags_to_string passes
numeric_flags b flags = ground arith

decimal_size : (n : ℕ) → n < 2147483648 → decimal_int (to_int n) ≡ decimal n
unfolding to_int decimal_int
decimal_size n h = ground arith

module _ (cfg : JsonConfig) (d : SaveData) (oid : Text) (uid : ℕ) where
  -- The metadata of a new mail, with an entry of its uid, which `assign_uids` adds where the settings
  -- keep it.
  abbrev pub saved : Map Text
  saved =
      (add_metadata (convert_uint mail_uid uid)
        (set_mail_metadata cfg d (new_mail_object oid))).metadata

  -- The settings under which a mail can be found again, and the sizes and the time that have a text.
  pub record IsDescribed : Type 0 where
    pub guids : is_mail_attribute guid cfg ≡ true
    pub mailboxes : is_mail_attribute mailbox_guid cfg ≡ true
    pub times : is_mail_attribute received_time cfg ≡ true
    pub physicals : is_mail_attribute physical_size cfg ≡ true
    pub virtuals : is_mail_attribute virtual_size cfg ≡ true
    pub date : (n : ℕ) × (d.received_date ≡ pos n)
    pub v_offset_int : d.v_offset < 2147483648
    pub vsize_int : size_or d.vsize d.v_offset < 2147483648

  -- What stands under the keys that are validated.
  record Entries : Type 0 where
    times : get_key_metadata received_time saved ≡ some (decimal_int d.received_date ++ 0 ∷ [])
    physicals :
        get_key_metadata physical_size saved ≡ some (decimal_int (to_int d.v_offset) ++ 0 ∷ [])
    virtuals :
        get_key_metadata virtual_size saved
        ≡ some (decimal_int (to_int (size_or d.vsize d.v_offset)) ++ 0 ∷ [])
    uids : get_key_metadata mail_uid saved ≡ some (decimal uid ++ 0 ∷ [])
    flags :
        get_key_metadata oldv1_flags saved ≡ kept_flags (is_mail_attribute oldv1_flags cfg) d.flags
    pvts :
        get_key_metadata pvt_flags saved
        ≡ kept_flags (is_mail_attribute pvt_flags cfg) d.private_flags
    mailboxes : get_key_metadata mailbox_guid saved ≡ some (d.mailbox_guid_text ++ 0 ∷ [])
    guids :
        get_key_metadata guid saved
        ≡ some ((if d.deprecated_uid then d.mail_guid_uuid else d.mail_guid_text) ++ 0 ∷ [])

  entries : IsDescribed → Entries
  unfolding set_mail_metadata set_flags set_sizes set_pop3 set_identifiers stores get_key_metadata
      get_metadata convert convert_int convert_size convert_uint key_to_char new_mail_object
      add_metadata lookup
  entries h = record {
    times =
        simp
          (
            buffer_start-stored, buffer_start-kept, lookup-insert, lookup_keywords, lookup-add_if,
            lookup-add_some, h.times,
          )
          refl;
    physicals =
        simp
          (
            buffer_start-stored, buffer_start-kept, lookup-insert, lookup_keywords, lookup-add_if,
            lookup-add_some, h.physicals,
          )
          refl;
    virtuals =
        simp
          (
            buffer_start-stored, buffer_start-kept, lookup-insert, lookup_keywords, lookup-add_if,
            lookup-add_some, h.virtuals,
          )
          refl;
    uids = simp (buffer_start-stored, buffer_start-kept, lookup-insert) refl;
    flags =
        simp
          (
            buffer_start-stored, buffer_start-kept, lookup-insert, lookup_keywords, lookup-add_if,
            lookup-add_some,
          )
          refl;
    pvts =
        simp
          (
            buffer_start-stored, buffer_start-kept, lookup-insert, lookup_keywords, lookup-add_if,
            lookup-add_some,
          )
          refl;
    mailboxes =
        simp
          (
            buffer_start-stored, buffer_start-kept, lookup-insert, lookup_keywords, lookup-add_if,
            lookup-add_some, h.mailboxes,
          )
          refl;
    guids =
        simp
          (
            buffer_start-stored, buffer_start-kept, lookup-insert, lookup_keywords, lookup-add_if,
            lookup-add_some, h.guids,
          )
          refl;
  }

  numeric_date : IsDescribed → is_numeric (some (decimal_int d.received_date ++ 0 ∷ [])) ≡ true
  unfolding decimal_int
  numeric_date h = let (n, e) = h.date in rw e (is_numeric-decimal n)

  numeric_size :
      (n : ℕ) → n < 2147483648 → is_numeric (some (decimal_int (to_int n) ++ 0 ∷ [])) ≡ true
  numeric_size n h = rw (decimal_size n h) (is_numeric-decimal n)

  -- With settings that keep both identifiers, the time and the sizes, with a time that is not negative
  -- and with sizes below 2 ^ 31: the metadata that a save writes for a new mail, together with an entry
  -- of its uid (which the assignment of uids adds only where the settings keep the uid), is valid exactly
  -- when each of the two kinds of flags is not kept, or is zero, or is the code of white space
  -- or of a digit.
  pub validate_metadata-saved :
      IsDescribed
      → validate_metadata saved ≡ (
          (not (is_mail_attribute oldv1_flags cfg) || passes d.flags)
          && (not (is_mail_attribute pvt_flags cfg) || passes d.private_flags))
  unfolding validate_metadata
  validate_metadata-saved h =
      let e = entries h in
      rw
        (
          e.uids,
          e.times,
          e.physicals,
          e.virtuals,
          e.flags,
          e.pvts,
          e.mailboxes,
          e.guids,
          is_numeric-decimal uid,
          numeric_date h,
          numeric_size d.v_offset h.v_offset_int,
          numeric_size (size_or d.vsize d.v_offset) h.vsize_int,
          numeric_flags (is_mail_attribute oldv1_flags cfg) d.flags,
          numeric_flags (is_mail_attribute pvt_flags cfg) d.private_flags,
        )
        (ground arith)
