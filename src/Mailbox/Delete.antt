-- ===== src/Mailbox/Delete.antt =====
-- Deleting a mailbox: `rbox_storage_mailbox_delete`.
pub mod Empty
use dovecot_ceph_plugin.Prelude.{
  ℕ, ◌+◌, ◌%◌, ◌^◌, ℤ, pos, minus_one, is_neg, int_eq, Bool, true, false, not, ◌&&◌, Option, none,
  some, List, [], ◌∷◌, ◌++◌, Text, Map, codes, str_eq, stoi, ◌==◌, if◌then◌else◌,
}
use dovecot_ceph_plugin.Librados.{Librados}
use dovecot_ceph_plugin.Config.{JsonConfig}
use dovecot_ceph_plugin.Storage.{Storage, set_namespace, delete_oid}
use dovecot_ceph_plugin.Storage.Recovery.{ceph_index_delete}
use dovecot_ceph_plugin.Mailbox.{Pools}

-- A mailbox that the list of a namespace names; `exists` is false for those that cannot be selected.
pub record Listed : Type 0 where
  pub vname : Text
  pub exists : Bool

-- A namespace: its owner, its mailboxes, and whether the iteration over them ends well.
pub record Space : Type 0 where
  pub owner : Option Text
  pub boxes : List Listed
  pub iterated : Bool

pub record DeleteCalls (L : Librados) : Type 0 where
  -- the number of messages, `none` where it cannot be found out
  pub get_status : Text → L.State → Option ℕ × L.State
  pub lookup_key : Text → L.State → Option Text × L.State
  pub index_mailbox_delete : L.State → ℤ × L.State
  pub read_configuration : L.State → L.State
  pub open_rados_connection : Bool → Pools L → L.State → ℤ × Pools L × L.State
  -- the namespaces of the user, from that of the inbox on
  pub namespaces : List Space
  -- settings of Dovecot
  pub object_search_method : Text
  pub check_empty_mailboxes : Bool
  -- whether a mailbox is the inbox by its name
  pub name : Text

-- A mailbox whose status is not known counts as one mail.
abbrev pub mails_of : Option ℕ → ℕ
mails_of none = 1
mails_of (some n) = n

module _ (L : Librados) (C : DeleteCalls L) where
  unfoldable pub count_mails : List Listed → ℕ → L.State → ℕ × L.State
  count_mails [] total s = (total, s)
  count_mails (box ∷ boxes) total s = elim box.exists [
    | false ↦ count_mails boxes total s
    | true ↦
        (let (messages, s1) = C.get_status box.vname s in
          count_mails boxes ((total + mails_of messages) % 2 ^ 32) s1)
  ]

  module _ (cfg : JsonConfig) where
    -- The object that maps the user to a namespace; the storage stays in the namespace of those.
    delete_ns_object : Text → Storage L → L.State → ℤ × Storage L × L.State
    delete_ns_object username st s =
        let uid = username ++ cfg.user_suffix in
        let (found, s1) = C.lookup_key uid s in
        let st1 = set_namespace L cfg.user_ns st in
        let (ret, s2) = delete_oid L uid st1 s1 in (ret, st1, s2)

    -- `none` where a namespace without mails has no owner, which ends the process.
    unfoldable pub check_space : Space → ℤ → Storage L → L.State → Option (ℤ × Storage L × L.State)
    unfolding delete_ns_object
    check_space space ret st s =
        let (total, s1) = count_mails space.boxes 0 s in
        let ret1 = if space.iterated then ret else minus_one in
        elim (total == 0) [
          | false ↦ some (ret1, st, s1)
          | true ↦ elim space.owner [
            | none ↦ none
            | some username ↦ some (delete_ns_object username st s1)
          ]
        ]

    unfoldable pub check_spaces :
        List Space → ℤ → Storage L → L.State → Option (ℤ × Storage L × L.State)
    check_spaces [] ret st s = some (ret, st, s)
    check_spaces (space ∷ spaces) ret st s = elim (check_space space ret st s) [
      | none ↦ none
      | some (ret1, st1, s1) ↦ check_spaces spaces ret1 st1 s1
    ]

    -- The user's objects, once the mailbox is deleted.
    check_user : Pools L → L.State → Option (ℤ × Pools L × L.State)
    check_user p s =
        if not C.check_empty_mailboxes
        then some (pos 0, p, s)
        else if str_eq cfg.user_mapping (codes "true")
        then elim (check_spaces C.namespaces (pos 0) p.s s) [
          | none ↦ none
          | some (ret, st, s1) ↦ some (ret, record p { s = st }, s1)
        ]
        else some (pos 0, p, s)

    delete_opened : Pools L → L.State → Option (ℤ × Pools L × L.State)
    delete_opened p s = elim (stoi C.object_search_method) [
      | none ↦ none
      | some method ↦ check_user p (
          if int_eq method (pos 2) && str_eq C.name (codes "INBOX")
          then (ceph_index_delete L p.s s).1
          else s)
    ]

    -- The index is deleted first, and nothing else where that fails; `none` where the setting is no number.
    unfoldable pub mailbox_delete : Pools L → L.State → Option (ℤ × Pools L × L.State)
    unfolding delete_opened check_user
    mailbox_delete p s =
        let (deleted, s1) = C.index_mailbox_delete s in
        if is_neg deleted
        then some (deleted, p, s1)
        else let (opened, p1, s2) = C.open_rados_connection false p (C.read_configuration s1) in
          if is_neg opened then some (opened, p1, s2) else delete_opened p1 s2
