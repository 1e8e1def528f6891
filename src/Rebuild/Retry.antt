-- ===== src/Rebuild/Retry.antt =====
-- `rbox_storage_rebuild_in_context`: the rebuild of all mailboxes, and what is done with the mails that no
-- mailbox has taken.
pub mod Reassign
use dovecot_ceph_plugin.Prelude.{
  ℕ, ◌+◌, ◌==◌, ℤ, pos, minus_one, is_neg, Bool, true, false, Option, none, some, List, [], ◌∷◌,
  Text, Map, codes, c_str, if◌then◌else◌,
}
use dovecot_ceph_plugin.Types.{mailbox_guid, mail_uid}
use dovecot_ceph_plugin.Librados.{Librados, WriteStep, setxattr}
use dovecot_ceph_plugin.Metadata.{RadosMetadata, convert, convert_int}
use dovecot_ceph_plugin.Attributes.{MailObject, MetadataModule}
use dovecot_ceph_plugin.Storage.{Storage, xattr_steps}
use dovecot_ceph_plugin.Rebuild.{IndexCalls, RadosMails, int_max}
use dovecot_ceph_plugin.Rebuild.Uids.{unrestored}
use dovecot_ceph_plugin.Rebuild.Namespace.{
  NamespaceCalls, SearchSettings, RepairState, repair_namespace, find_default_mailbox_guid,
}

-- The mails that are not assigned.
pub count_not_assigned : RadosMails → ℕ
count_not_assigned [] = 0
count_not_assigned ((g, mails) ∷ rados_mails) = unrestored mails + count_not_assigned rados_mails

-- What an unassigned mail is given: the mailbox, and a uid that says that its own is lost.
unfoldable pub reset_values : Text → List RadosMetadata
reset_values last_known_mailbox_guid =
    convert_int mail_uid (pos int_max) ∷ convert mailbox_guid last_known_mailbox_guid ∷ []

-- What is left to do: nothing more, with a result, or another try.
pub data Outcome : Type 0 where
  ended : ℤ → Outcome
  unassigned : Outcome

module _ (L : Librados) (K : IndexCalls L) (N : NamespaceCalls L K) (M : L.IoCtx → MetadataModule L)
    (cfg : SearchSettings) where
  -- The unassigned mails of a list; a write that fails is only reported.
  reassign : Text → L.IoCtx → List MailObject → L.State → L.State
  reassign g io_ctx [] s = s
  reassign g io_ctx (mail ∷ mails) s = reassign g io_ctx mails (
      if mail.restored then s else (L.operate io_ctx mail.oid (xattr_steps L (reset_values g)) s).1)

  reassign_all : Text → L.IoCtx → RadosMails → L.State → L.State
  reassign_all g io_ctx [] s = s
  reassign_all g io_ctx ((h, mails) ∷ rados_mails) s =
      reassign_all g io_ctx rados_mails (reassign g io_ctx mails s)

  -- The results of the namespaces are not looked at.
  repair_all : Bool → List N.Ns → RepairState L → L.State → Option (RepairState L × L.State)
  repair_all force [] r s = some (r, s)
  repair_all force (ns ∷ nss) r s = elim (repair_namespace L K N M cfg force ns r s) [
    | none ↦ none
    | some (ret, r1, s1) ↦ repair_all force nss r1 s1
  ]

  assign : RepairState L → L.State → Outcome × RepairState L × L.State
  assign r s =
      if count_not_assigned r.rados_mails == 0
      then (ended (pos 0), r, s)
      else let (found, g, s1) =
          find_default_mailbox_guid L K N M cfg (N.inbox_namespaces s) (codes "") s in
        if is_neg found
        then (ended (pos 0), r, s1)
        else (unassigned, r, reassign_all g r.storage.io_ctx r.rados_mails s1)

  -- One run over the namespaces, which starts without mails.
  pub attempt : Bool → RepairState L → L.State → Option (Outcome × RepairState L × L.State)
  attempt force r s =
      elim (repair_all force (N.inbox_namespaces s) (record r { rados_mails = [] }) s) [
        | none ↦ none
        | some (r1, s1) ↦ some (assign r1 s1)
      ]

  -- The call whose `firstTry` is false.
  last_try : Bool → RepairState L → L.State → Option (ℤ × RepairState L × L.State)
  last_try force r s = elim (attempt force r s) [
    | none ↦ none
    | some (ended ret, r1, s1) ↦ some (ret, r1, s1)
    | some (unassigned, r1, s1) ↦ some (minus_one, r1, s1)
  ]

  -- The call whose `firstTry` is true, which tries again once.
  pub rebuild_in_context : Bool → RepairState L → L.State → Option (ℤ × RepairState L × L.State)
  rebuild_in_context force r s = elim (attempt force r s) [
    | none ↦ none
    | some (ended ret, r1, s1) ↦ some (ret, r1, s1)
    | some (unassigned, r1, s1) ↦ last_try force r1 s1
  ]
