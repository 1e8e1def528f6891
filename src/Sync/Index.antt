-- ===== src/Sync/Index.antt =====
-- Going through the changes of the index: `rbox_sync_index`, with moves to the other pool and back.
pub mod Swallowed
use dovecot_ceph_plugin.Prelude.{
  ℕ, zero, suc, ◌==◌, ℤ, pos, minus_one, is_neg, Bool, true, false, ◌&&◌, Option, none, some, List,
  [], ◌∷◌, Text, if◌then◌else◌,
}
use dovecot_ceph_plugin.Types.{MetadataKey, oldv1_flags, oldv1_keywords}
use dovecot_ceph_plugin.Librados.{Librados}
use dovecot_ceph_plugin.Config.{JsonConfig, is_mail_attribute, is_updateable_attribute}
use dovecot_ceph_plugin.Attributes.{MetadataModule}
use dovecot_ceph_plugin.Attributes.Ima.{is_update_attributes}
use dovecot_ceph_plugin.Alt as Alt
use dovecot_ceph_plugin.Mailbox.{Pools, is_alternate_storage_set, is_alternate_pool_valid}
use dovecot_ceph_plugin.Sync.{
  SyncCalls, SyncRec, ViewHeader, ExpungedItem, rounds, expunge, flags, keyword_add, keyword_remove,
  other_change, sync_expunge,
}
use dovecot_ceph_plugin.Sync.Flags.{update_flags, update_extended_metadata}

module _ (L : Librados) (K : SyncCalls L) (metadata : Alt.MetadataStorage L) where
  -- With `n` rounds to go; the last result.
  move_from : ℕ → ℕ → Bool → ℤ → Pools L → L.State → Option (ℤ × Pools L × L.State)
  move_from zero seq inverse ret p s = some (ret, p, s)
  move_from (suc n) seq inverse ret p s = elim (K.lookup_ext seq s) [
    | none ↦ move_from n (suc seq) inverse ret p s
    | some oid ↦
        elim (Alt.move_to_alt L metadata (K.guid_128_to_string oid) (p.s, p.alt) p.metadata_io_ctx
          inverse s) [
            | none ↦ none
            | some (moved, io_ctx, s1) ↦
                move_from n (suc seq) inverse moved (record p { metadata_io_ctx = io_ctx })
                  (if is_neg moved
                    then s1
                    else if inverse
                    then K.remove_alt_flag seq s1
                    else K.add_alt_flag seq s1)
          ]
  ]

  unfoldable pub move_to_alt : ℕ → ℕ → Bool → Pools L → L.State → Option (ℤ × Pools L × L.State)
  unfolding move_from
  move_to_alt seq1 seq2 inverse p s =
      let (opened, p1, s1) = K.open_rados_connection true p s in
      if is_neg opened
      then some (minus_one, p1, s1)
      else move_from (rounds seq1 seq2) seq1 inverse minus_one p1 s1

  module _ (M : L.IoCtx → MetadataModule L) (cfg : JsonConfig) where
    -- Whether changes of an attribute are written.
    unfoldable pub is_written : MetadataKey → Bool
    is_written key =
        is_mail_attribute key cfg && is_update_attributes cfg && is_updateable_attribute key cfg

    -- The items, the pools and the state after a change, with the result that is looked at.
    abbrev pub Synced : Type 0
    Synced = Option (ℤ × List ExpungedItem × Pools L × L.State)

    -- A failure is only reported.
    report : List ExpungedItem → Option (ℤ × Pools L × L.State) → Synced
    report items none = none
    report items (some (ret, p, s)) = some (pos 1, items, p, s)

    -- A failure ends the synchronisation.
    demand : List ExpungedItem → Option (ℤ × Pools L × L.State) → Synced
    demand items none = none
    demand items (some (ret, p, s)) = some ((if is_neg ret then minus_one else pos 1), items, p, s)

    sync_flags : ℕ → ℕ → ℕ → ℕ → List ExpungedItem → Pools L → L.State → Synced
    sync_flags add_flags remove_flags seq1 seq2 items p s =
        if is_alternate_storage_set K.rbox_index_flag_alt add_flags
          && is_alternate_pool_valid K.alt_dir
        then report items (move_to_alt seq1 seq2 false p s)
        else if is_alternate_storage_set K.rbox_index_flag_alt remove_flags
            && is_alternate_pool_valid K.alt_dir
        then report items (move_to_alt seq1 seq2 true p s)
        else if is_written oldv1_flags
        then report items (update_flags L K M seq1 seq2 add_flags remove_flags p s)
        else some (pos 1, items, p, s)

    sync_keyword : Bool → ℕ → ℕ → ℕ → List ExpungedItem → Pools L → L.State → Synced
    sync_keyword remove keyword_idx seq1 seq2 items p s =
        if is_written oldv1_keywords
        then demand items (update_extended_metadata L K M seq1 seq2 keyword_idx remove p s)
        else some (pos 1, items, p, s)

    -- One record; where all mails of its uids are expunged already there is nothing to do.
    sync_range : SyncRec → Option (ℕ × ℕ) → List ExpungedItem → Pools L → L.State → Synced
    sync_range r none items p s = some (pos 1, items, p, s)
    sync_range r (some (seq1, seq2)) items p s = elim r.change [
      | expunge ↦
          (let (items1, s1) = sync_expunge L K seq1 seq2 items s in some (pos 1, items1, p, s1))
      | flags add_flags remove_flags ↦ sync_flags add_flags remove_flags seq1 seq2 items p s
      | keyword_add keyword_idx ↦ sync_keyword false keyword_idx seq1 seq2 items p s
      | keyword_remove keyword_idx ↦ sync_keyword true keyword_idx seq1 seq2 items p s
      | other_change ↦ some (pos 1, items, p, s)
    ]

    -- The records that `mail_index_sync_next` gives, in their order.
    unfoldable pub sync_records : List SyncRec → List ExpungedItem → Pools L → L.State → Synced
    unfolding sync_range sync_flags sync_keyword report demand is_written
    sync_records [] items p s = some (pos 1, items, p, s)
    sync_records (r ∷ rs) items p s =
        elim (sync_range r (K.lookup_seq_range r.uid1 r.uid2 s) items p s) [
          | none ↦ none
          | some (ret, items1, p1, s1) ↦ elim (is_neg ret) [
            | true ↦ some (minus_one, items1, p1, s1)
            | false ↦ sync_records rs items1 p1 s1
          ]
        ]

    mark_recent : ViewHeader → L.State → L.State
    mark_recent hdr s = elim (K.lookup_seq_range hdr.first_recent_uid hdr.next_uid s) [
      | none ↦ s
      | some (seq1, seq2) ↦ K.recent_flags_set_seqs seq1 seq2 s
    ]

    -- An index without a UIDVALIDITY: its creation may not have ended, otherwise it is broken.
    sync_unset : ViewHeader → Pools L → L.State → Synced
    sync_unset hdr p s =
        let (created, s1) = K.mailbox_create_indexes s in
        if hdr.next_uid == 1
        then some ((if is_neg created then minus_one else pos 1), [], p, s1)
        else some (pos 0, [], p, K.set_mailbox_corrupted (K.set_critical s))

    sync_valid : ViewHeader → List SyncRec → Pools L → L.State → Synced
    sync_valid hdr rs p s =
        if hdr.uid_validity == 0
        then sync_unset hdr p s
        else sync_records rs [] p (mark_recent hdr s)

    unfoldable pub sync_index : List SyncRec → Pools L → L.State → Synced
    unfolding sync_valid sync_unset mark_recent
    sync_index rs p s = elim (K.get_header s) [
      | none ↦ some (minus_one, [], p, s)
      | some hdr ↦ sync_valid hdr rs p s
    ]
