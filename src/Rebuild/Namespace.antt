-- ===== src/Rebuild/Namespace.antt =====
-- Going through the mailboxes of a namespace: `repair_namespace`, and the search for the inbox.
use dovecot_ceph_plugin.Prelude.{
  ℕ, ℤ, pos, minus_one, is_neg, int_eq, stoi, Bool, true, false, not, ◌||◌, Option, none, some,
  List, [], ◌∷◌, Text, TextSet, codes, str_eq, add, is_empty, if◌then◌else◌,
}
use dovecot_ceph_plugin.Librados.{Librados}
use dovecot_ceph_plugin.Attributes.{MailObject, MetadataModule}
use dovecot_ceph_plugin.Storage.{Storage, is_usable}
use dovecot_ceph_plugin.Storage.Recovery.{ceph_index_read, ceph_index_overwrite}
use dovecot_ceph_plugin.Storage.Search.{Listing, find_mails_async}
use dovecot_ceph_plugin.Rebuild.{IndexCalls, RadosMails}
use dovecot_ceph_plugin.Rebuild.Header.{index_rebuild}
use dovecot_ceph_plugin.Rebuild.Load.{load_rados_mail_metadata}

-- A mailbox of a listing; whether it exists and can be selected.
pub record MailboxInfo : Type 0 where
  pub vname : Text
  pub is_selectable : Bool

-- What Dovecot does with namespaces and mailboxes, and the searches for objects.
pub record NamespaceCalls (L : Librados) (K : IndexCalls L) : Type 1 where
  pub Ns : Type 0
  -- the inbox's and those after it
  pub inbox_namespaces : L.State → List Ns
  pub mailbox_infos : Ns → L.State → List MailboxInfo
  pub iter_deinit : Ns → L.State → ℤ × L.State
  pub mailbox_alloc : Ns → Text → L.State → K.Box × L.State
  pub mailbox_free : K.Box → L.State → L.State
  pub mailbox_open : K.Box → L.State → ℤ × L.State
  -- of the storage that is repaired
  pub is_own : K.Box → Bool
  pub has_virtual_vfuncs : K.Box → Bool
  -- these do nothing where Dovecot has no such calls
  pub lock_sync : K.Box → L.State → L.State
  pub unlock : K.Box → L.State → L.State
  pub open_rados_connection : K.Box → Storage L → L.State → ℤ × Storage L × L.State
  -- the objects in the namespace of an io context
  pub list_objects : L.IoCtx → L.State → List Text
  -- the names in a placement group, and the monitor's answer about the groups of a pool
  pub group_names : L.IoCtx → L.State → Listing
  pub pg_ls_by_pool : Text → L.State → Text × L.State
  -- what stands in memory after the buffer that is read next
  pub memory_after : L.State → Text

-- The settings of the search.
pub record SearchSettings : Type 0 where
  pub object_search_method : Text
  pub object_search_threads : Text

-- What the repair keeps.
pub record RepairState (L : Librados) : Type 0 where
  pub storage : Storage L
  pub rados_mails : RadosMails
  pub corrupted_rebuild_count : ℕ

add_all : List Text → TextSet → TextSet
add_all [] mail_list = mail_list
add_all (oid ∷ oids) mail_list = add_all oids (add oid mail_list)

add_oids : List MailObject → TextSet → TextSet
add_oids [] valid_objects = valid_objects
add_oids (mail ∷ mails) valid_objects = add_oids mails (add mail.oid valid_objects)

-- The names of all mails.
pub valid_objects : RadosMails → TextSet → TextSet
valid_objects [] oids = oids
valid_objects ((g, mails) ∷ rados_mails) oids = valid_objects rados_mails (add_oids mails oids)

module _ (L : Librados) (K : IndexCalls L) (N : NamespaceCalls L K) (M : L.IoCtx → MetadataModule L)
    (cfg : SearchSettings) where
  -- The search that a method names. A setting that is no number throws.
  search_by : ℤ → Storage L → L.State → Option (TextSet × L.State)
  search_by search_method st s =
      if int_eq search_method (pos 1)
      then elim (stoi cfg.object_search_threads) [
        | none ↦ none
        | some threads ↦
            (let (outbl, s1) = N.pg_ls_by_pool st.pool_name s in
              elim (find_mails_async (N.group_names st.io_ctx s1) outbl threads) [
                | none ↦ none
                | some mail_list ↦ some (mail_list, s1)
              ])
      ]
      else if int_eq search_method (pos 2)
      then some (ceph_index_read L (N.memory_after s) st s)
      else some (add_all (if is_usable L st then N.list_objects st.io_ctx s else []) [], s)

  -- The recovery index is written again from the mails that are valid; a failure is only reported.
  overwrite_index : ℤ → RadosMails → Storage L → L.State → L.State
  overwrite_index search_method rados_mails st s =
      if int_eq search_method (pos 2)
      then (ceph_index_overwrite L (valid_objects rados_mails []) st s).1
      else s

  -- Finding the mails, on an open connection.
  find_all : RepairState L → L.State → Option (RepairState L × L.State)
  find_all r s = elim (stoi cfg.object_search_method) [
    | none ↦ none
    | some search_method ↦ elim (search_by search_method r.storage s) [
      | none ↦ none
      | some (mail_list, s1) ↦ elim (load_rados_mail_metadata L (M r.storage.io_ctx) mail_list s1) [
        | none ↦ none
        | some (rados_mails, s2) ↦ some (
          record r { rados_mails = rados_mails },
          overwrite_index search_method rados_mails r.storage s2,
        )
      ]
    ]
  ]

  -- The mails are looked for while none were found; false is a connection that cannot be opened.
  load_mails : K.Box → RepairState L → L.State → Option (Bool × RepairState L × L.State)
  load_mails box r s =
      if not (is_empty r.rados_mails)
      then some (true, r, s)
      else let (ret, st, s1) = N.open_rados_connection box r.storage s in
        if is_neg ret
        then some (false, record r { storage = st }, s1)
        else elim (find_all (record r { storage = st }) s1) [
          | none ↦ none
          | some (r', s2) ↦ some (true, r', s2)
        ]

  -- The index of an open mailbox.
  rebuild_box : Bool → K.Box → RepairState L → L.State → Option (Bool × ℤ × RepairState L × L.State)
  rebuild_box force box r s = elim (load_mails box r s) [
    | none ↦ none
    | some (false, r1, s1) ↦ some (false, minus_one, r1, s1)
    | some (true, r1, s1) ↦
        elim (index_rebuild L K (M r1.storage.io_ctx) box force r1.corrupted_rebuild_count
          r1.rados_mails s1) [
            | none ↦ none
            | some (ret, rados_mails, s2) ↦ some (
              true,
              ret,
              record r1 { rados_mails = rados_mails; corrupted_rebuild_count = 0 },
              N.mailbox_free box (N.unlock box s2),
            )
          ]
  ]

  -- One mailbox; false ends the loop, with the result of the whole.
  repair_box :
      Bool → N.Ns → Text → RepairState L → L.State → Option (Bool × ℤ × RepairState L × L.State)
  repair_box force ns vname r s =
      let (box, s1) = N.mailbox_alloc ns vname s in
      if not (N.is_own box) || N.has_virtual_vfuncs box
      then some (false, pos 0, r, N.mailbox_free box s1)
      else let (opened, s2) = N.mailbox_open box s1 in
        if is_neg opened
        then some (false, minus_one, r, s2)
        else rebuild_box force box r (N.lock_sync box s2)

  repair_boxes :
      Bool
      → N.Ns
      → List MailboxInfo
      → ℤ
      → RepairState L
      → L.State
      → Option (ℤ × RepairState L × L.State)
  repair_boxes force ns [] ret r s =
      let (ended, s1) = N.iter_deinit ns s in some (if is_neg ended then minus_one else ret, r, s1)
  repair_boxes force ns (info ∷ infos) ret r s = elim info.is_selectable [
    | false ↦ repair_boxes force ns infos ret r s
    | true ↦ elim (repair_box force ns info.vname r s) [
      | none ↦ none
      | some (false, ret1, r1, s1) ↦ some (ret1, r1, s1)
      | some (true, ret1, r1, s1) ↦ repair_boxes force ns infos ret1 r1 s1
    ]
  ]

  -- The listing is that at the beginning.
  pub repair_namespace :
      Bool → N.Ns → RepairState L → L.State → Option (ℤ × RepairState L × L.State)
  repair_namespace force ns r s = repair_boxes force ns (N.mailbox_infos ns s) (pos 0) r s

  -- The identifier of the inbox, where one is found; the second argument is what was found before.
  find_inbox : N.Ns → List MailboxInfo → ℤ × Text → L.State → ℤ × Text × L.State
  find_inbox ns [] (ret, guid) s =
      let (ended, s1) = N.iter_deinit ns s in (if is_neg ended then minus_one else ret, guid, s1)
  find_inbox ns (info ∷ infos) (ret, guid) s = elim info.is_selectable [
    | false ↦ find_inbox ns infos (ret, guid) s
    | true ↦
        (let (box, s1) = N.mailbox_alloc ns info.vname s in
          elim (N.has_virtual_vfuncs box) [
            | true ↦ (minus_one, guid, N.mailbox_free box s1)
            | false ↦
                (let (opened, s2) = N.mailbox_open box s1 in
                  elim (is_neg opened) [
                    | true ↦ (minus_one, guid, s2)
                    | false ↦
                        find_inbox ns infos
                          (if str_eq info.vname (codes "INBOX")
                            then (pos 0, K.mailbox_guid box)
                            else (ret, guid))
                          (N.mailbox_free box s2)
                  ])
          ])
  ]

  pub find_inbox_mailbox_guid : N.Ns → Text → L.State → ℤ × Text × L.State
  find_inbox_mailbox_guid ns guid s = find_inbox ns (N.mailbox_infos ns s) (minus_one, guid) s

  pub find_default_mailbox_guid : List N.Ns → Text → L.State → ℤ × Text × L.State
  find_default_mailbox_guid [] guid s = (minus_one, guid, s)
  find_default_mailbox_guid (ns ∷ nss) guid s =
      let (ret, guid1, s1) = find_inbox_mailbox_guid ns guid s in
      elim (int_eq ret (pos 0)) [
        | true ↦ (pos 0, guid1, s1)
        | false ↦ find_default_mailbox_guid nss guid1 s1
      ]
