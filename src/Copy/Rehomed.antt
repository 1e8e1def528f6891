-- ===== src/Copy/Rehomed.antt =====
-- What a mail's copy in another mailbox is, attribute by attribute.
use dovecot_ceph_plugin.Prelude.{
  ℤ, ◌&&◌, ◌≡◌, refl, ◌++◌, some, [], ◌∷◌, Text, codes, lookup, lookup-insert, str_eq, decimal_int,
  arith, Bool-cases, inl, inr, if◌then◌else◌,
}
use dovecot_ceph_plugin.Types.{key_to_char, orig_mailbox}
use dovecot_ceph_plugin.Librados.Objects.{Object}
use dovecot_ceph_plugin.Metadata.{convert, convert_int}
use dovecot_ceph_plugin.Config.{JsonConfig, is_updateable_attribute}
use dovecot_ceph_plugin.Attributes.Ima.{is_update_attributes}
use dovecot_ceph_plugin.Storage.Move.{copy_of, updated}
use dovecot_ceph_plugin.Copy.{Boxes, set_mailbox_metadata}

-- The copy `y` of an object `x`: its bytes and its omap, the time of the copy, and its attributes but
-- for the identifier of the mailbox (M), the time of receipt (R), and where the settings update it the
-- name of the mailbox (B). The three values end with a NUL.
pub record IsRehomed (cfg : JsonConfig) (boxes : Boxes) (guid_text : Text) (received : ℤ) (now : ℤ)
    (x y : Object) : Type 0 where
  pub content : y.content ≡ x.content
  pub omap : y.omap ≡ x.omap
  pub changed_at : y.changed_at ≡ now
  pub xattrs :
      (k : Text)
      → lookup k y.xattrs ≡ (
          if str_eq (codes "M") k
          then some (guid_text ++ 0 ∷ [])
          else if str_eq (codes "R") k
          then some (decimal_int received ++ 0 ∷ [])
          else if str_eq (codes "B") k
              && (is_update_attributes cfg && is_updateable_attribute orig_mailbox cfg)
          then some (boxes.dest_name ++ 0 ∷ [])
          else lookup k x.xattrs)

-- The metadata that a copy is given make it one.
pub copy_of-IsRehomed :
    (cfg : JsonConfig) (boxes : Boxes) (guid_text : Text) (received now : ℤ) (x : Object)
    → IsRehomed cfg boxes guid_text received now x
        (copy_of (set_mailbox_metadata cfg boxes guid_text received) now x)
unfolding copy_of updated set_mailbox_metadata convert convert_int key_to_char
copy_of-IsRehomed cfg boxes guid_text received now x =
    elim (Bool-cases (is_update_attributes cfg && is_updateable_attribute orig_mailbox cfg)) [
      | inl e ↦ record {
        content = refl;
        omap = refl;
        changed_at = refl;
        xattrs = λ k. rw e (simp lookup-insert (ground arith));
      }
      | inr e ↦ record {
        content = refl;
        omap = refl;
        changed_at = refl;
        xattrs = λ k. rw e (simp lookup-insert (ground arith));
      }
    ]
