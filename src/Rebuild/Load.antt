-- ===== src/Rebuild/Load.antt =====
-- The metadata of the mails that a search found, grouped by mailbox.
pub mod Grouping
use dovecot_ceph_plugin.Prelude.{
  ℤ, is_neg, Bool, true, false, not, ◌&&◌, ◌||◌, ◌≡◌, refl, sym, ap, ◌∙◌, Option, none, some, List,
  [], ◌∷◌, ◌++◌, append_assoc, append-nil, Text, Map, TextSet, c_str, str_eq, lookup, insert,
  lookup-insert, keep, arith, if◌then◌else◌,
}
use dovecot_ceph_plugin.Types.{mailbox_guid}
use dovecot_ceph_plugin.Librados.{Librados}
use dovecot_ceph_plugin.Util.{get_key_metadata, validate_metadata}
use dovecot_ceph_plugin.Attributes.{MailObject, MetadataModule, new_mail_object}
use dovecot_ceph_plugin.Rebuild.{RadosMails}

-- `mailbox_guid` of the metadata as text; `none` is the null pointer.
unfoldable pub guid_of : MailObject → Option Text
guid_of mail = elim (get_key_metadata mailbox_guid mail.metadata) [
  | none ↦ none
  | some v ↦ some (c_str v)
]

unfoldable pub add_mail : Text → MailObject → RadosMails → RadosMails
add_mail g mail rados_mails = elim (lookup g rados_mails) [
  | none ↦ insert g (mail ∷ []) rados_mails
  | some mails ↦ insert g (mails ++ mail ∷ []) rados_mails
]

unfoldable pub is_valid_load : ℤ → Option MailObject → Bool
is_valid_load ret none = false
is_valid_load ret (some mail) = not (is_neg ret) && validate_metadata mail.metadata

module _ (L : Librados) (M : MetadataModule L) where
  -- What one mail that was loaded adds; a mail that is not valid is passed over.
  add_loaded : ℤ → Option MailObject → RadosMails → Option RadosMails
  add_loaded ret none rados_mails = some rados_mails
  add_loaded ret (some mail) rados_mails =
      if is_neg ret || not (validate_metadata mail.metadata)
      then some rados_mails
      else elim (guid_of mail) [ none ↦ none | some g ↦ some (add_mail g mail rados_mails) ]

  -- The loop over the names, in their order. The storage of the metadata is the primary one, as in
  -- every call of the source.
  pub load_from : TextSet → RadosMails → L.State → Option (RadosMails × L.State)
  load_from [] rados_mails s = some (rados_mails, s)
  load_from (oid ∷ mail_list) rados_mails s =
      elim (M.load_metadata (some (new_mail_object oid)) s) [
        | none ↦ none
        | some (ret, mail, s1) ↦ elim (add_loaded ret mail rados_mails) [
          | none ↦ none
          | some rados_mails' ↦ load_from mail_list rados_mails' s1
        ]
      ]

  pub load_rados_mail_metadata : TextSet → L.State → Option (RadosMails × L.State)
  load_rados_mail_metadata mail_list s = load_from mail_list [] s

  -- The valid mail that a load gives, if it gives one.
  unfoldable pub valid_mail : ℤ → Option MailObject → List MailObject
  valid_mail ret none = []
  valid_mail ret (some mail) =
      if is_neg ret || not (validate_metadata mail.metadata) then [] else mail ∷ []

  -- The valid mails in the order of the names.
  unfoldable pub valid_mails : TextSet → L.State → List MailObject
  valid_mails [] s = []
  valid_mails (oid ∷ mail_list) s = elim (M.load_metadata (some (new_mail_object oid)) s) [
    | none ↦ []
    | some (ret, mail, s1) ↦ valid_mail ret mail ++ valid_mails mail_list s1
  ]

  -- Whether a mail belongs to a mailbox.
  unfoldable pub is_in : Text → MailObject → Bool
  is_in g mail = elim (guid_of mail) [ none ↦ false | some h ↦ str_eq h g ]

  abbrev pub listed : Option (List MailObject) → List MailObject
  listed none = []
  listed (some mails) = mails

  listed-add_mail :
      (h g : Text) (mail : MailObject) (m : RadosMails)
      → listed (lookup g (add_mail h mail m))
        ≡ (if str_eq h g then listed (lookup h m) ++ mail ∷ [] else listed (lookup g m))
  unfolding add_mail
  listed-add_mail h g mail m =
      elim (lookup h m)
        as (λ o.
          listed (
            lookup g (elim o [
              | none ↦ insert h (mail ∷ []) m
              | some mails ↦ insert h (mails ++ mail ∷ []) m
            ]))
          ≡ (if str_eq h g then listed o ++ mail ∷ [] else listed (lookup g m))) [
            | none ↦ ground (arith, lookup-insert h g (mail ∷ []) m)
            | some mails ↦ ground (arith, lookup-insert h g (mails ++ mail ∷ []) m)
          ]
