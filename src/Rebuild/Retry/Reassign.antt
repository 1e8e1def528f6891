-- ===== src/Rebuild/Retry/Reassign.antt =====
-- A mail that was assigned to another mailbox, when it is loaded again.
use dovecot_ceph_plugin.Prelude.{
  ℕ, ℤ, pos, is_neg, Bool, true, false, ◌≡◌, refl, sym, ap, ◌∙◌, ◌⊎◌, inl, inr, Option, none, some,
  List, [], ◌∷◌, ◌++◌, Text, Map, c_str, free_of, stoi, lookup, arith, str_eq_refl,
}
use dovecot_ceph_plugin.Types.{
  MetadataKey, mailbox_guid, guid, mail_uid, received_time, physical_size, virtual_size,
  oldv1_flags, pvt_flags, key_to_char,
}
use dovecot_ceph_plugin.Librados.{Librados}
use dovecot_ceph_plugin.Librados.Objects.{or_new}
use dovecot_ceph_plugin.Librados.Laws.{ObjectLaws, AttributeLaws}
use dovecot_ceph_plugin.Metadata.{convert, convert_int}
use dovecot_ceph_plugin.Util.{get_key_metadata, get_metadata, buffer_start, validate_metadata}
use dovecot_ceph_plugin.Util.Validate.{buffer_start-stored, IsNumber, validate_metadata_iff}
use dovecot_ceph_plugin.Attributes.{new_mail_object}
use dovecot_ceph_plugin.Attributes.Plain.{load_metadata}
use dovecot_ceph_plugin.Attributes.Plain.Updates.{
  updated, metadata_of, apply-xattr_steps, load_metadata_read,
}
use dovecot_ceph_plugin.Storage.{xattr_steps}
use dovecot_ceph_plugin.Rebuild.Retry.{reset_values}

-- The values that the mail has afterwards, by their keys.
abbrev Resets : Text → Map Text → Map Text → Type 0
Resets g x y = (k : Text) → lookup k y ≡ updated k (reset_values g) (lookup k x)

-- What a reassigned mail is: valid, in the mailbox, with a uid that says that its own is lost.
pub record IsReassigned (g : Text) (m : Map Text) : Type 0 where
  pub is_valid : validate_metadata m ≡ true
  pub mailbox : get_key_metadata mailbox_guid m ≡ some (g ++ 0 ∷ [])
  pub uid :
      (v : Text) × (get_key_metadata mail_uid m ≡ some v) × (stoi (c_str v) ≡ some (pos 2147483647))

-- A value that stands where another stood.
IsNumber-stays :
    (k : MetadataKey) (x y : Map Text)
    → get_key_metadata k y ≡ get_key_metadata k x
    → IsNumber k x
    → IsNumber k y
IsNumber-stays k x y e (v, f, d) = (v, e ∙ f, d)

flags_stay :
    (k : MetadataKey) (x y : Map Text)
    → get_key_metadata k y ≡ get_key_metadata k x
    → (get_key_metadata k x ≡ none) ⊎ IsNumber k x
    → (get_key_metadata k y ≡ none) ⊎ IsNumber k y
flags_stay k x y e (inl f) = inl (e ∙ f)
flags_stay k x y e (inr n) = inr (IsNumber-stays k x y e n)

module _ (g : Text) (x y : Map Text) (h : Resets g x y) where
  there :
      (k : MetadataKey)
      → get_key_metadata k y
        ≡ buffer_start (updated (key_to_char k) (reset_values g) (lookup (key_to_char k) x))
  unfolding get_key_metadata get_metadata
  there k = ap buffer_start (h (key_to_char k))

  valid_again : validate_metadata x ≡ true → IsReassigned g y
  unfolding get_key_metadata get_metadata buffer_start reset_values updated convert convert_int
      key_to_char dovecot_ceph_plugin.Prelude.decimal_int stoi
  valid_again ok =
      let v = (validate_metadata_iff x).0 ok in
      record {
        is_valid = (validate_metadata_iff y).1 (record {
          uid = (_, there mail_uid, refl);
          received = IsNumber-stays received_time x y (there received_time) v.received;
          physical = IsNumber-stays physical_size x y (there physical_size) v.physical;
          virtual = IsNumber-stays virtual_size x y (there virtual_size) v.virtual;
          flags = flags_stay oldv1_flags x y (there oldv1_flags) v.flags;
          pvt = flags_stay pvt_flags x y (there pvt_flags) v.pvt;
          mailbox = (_, there mailbox_guid ∙ buffer_start-stored g);
          mail = (v.mail.0, there guid ∙ v.mail.1);
        });
        mailbox = there mailbox_guid ∙ buffer_start-stored g;
        uid = (_, there mail_uid, refl);
      }

module _ (L : Librados) (w : ObjectLaws L) (r : AttributeLaws L w) (io_ctx : L.IoCtx) where
  -- A mail whose attributes are valid metadata and whose reassignment to the mailbox `g` was written,
  -- loaded again as attributes that can be read: it is valid still, it belongs to that mailbox, and
  -- its uid is the number that stands for a lost one.
  pub operate-IsReassigned :
      (g oid : Text) (s : L.State)
      → validate_metadata (or_new (w.object s io_ctx oid)).xattrs ≡ true
      → is_neg (L.operate io_ctx oid (xattr_steps L (reset_values g)) s).0 ≡ false
      → is_neg
          (L.getxattrs io_ctx oid (L.operate io_ctx oid (xattr_steps L (reset_values g)) s).1).0
        ≡ false
      → IsReassigned g (
          metadata_of
            (load_metadata L io_ctx
              (some (new_mail_object oid))
              (L.operate io_ctx oid (xattr_steps L (reset_values g)) s).1).1)
  unfolding new_mail_object
  operate-IsReassigned g oid s valid written read =
      let x = or_new (w.object s io_ctx oid) in
      let (y, e, h) = apply-xattr_steps L w r io_ctx (w.object s) (reset_values g) x in
      rw
        (
          load_metadata_read L w r io_ctx (new_mail_object oid) _ read,
          w.operate_ok io_ctx oid (xattr_steps L (reset_values g)) s written,
          e,
        )
        (valid_again g x.xattrs y.xattrs h valid)
