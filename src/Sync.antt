-- ===== src/Sync.antt =====
-- src/storage-rbox/rbox-sync.cpp: bringing the objects of a mailbox in line with its index.
pub mod Expunge
pub mod Finish
pub mod Flags
pub mod Index
pub mod Begin
pub mod Tests
use dovecot_ceph_plugin.Prelude.{
  ℕ, zero, suc, ◌-◌, ◌%◌, ◌^◌, ℤ, minus_one, is_neg, Bool, true, false, not, ◌&&◌, Option, none,
  some, List, [], ◌∷◌, ◌++◌, Text, if◌then◌else◌,
}
use dovecot_ceph_plugin.Librados.{Librados}
use dovecot_ceph_plugin.Storage.{Storage}
use dovecot_ceph_plugin.Mailbox.{Pools, is_alternate_storage_set, is_alternate_pool_valid}

-- One change of the index, `struct mail_index_sync_rec`; the uids are `uid1` and `uid2`.
pub data SyncType : Type 0 where
  expunge : SyncType
  -- the flags that are added, and those that are removed
  flags : ℕ → ℕ → SyncType
  -- the place of the keyword
  keyword_add keyword_remove : ℕ → SyncType
  other_change : SyncType

pub record SyncRec : Type 0 where
  pub uid1 : ℕ
  pub uid2 : ℕ
  pub change : SyncType

-- The parts of the index header that are read.
pub record ViewHeader : Type 0 where
  pub uid_validity : ℕ
  pub next_uid : ℕ
  pub first_recent_uid : ℕ

-- What Dovecot's index does, on the same state as librados, and the opening of the connections.
pub record SyncCalls (L : Librados) : Type 0 where
  pub rbox_index_flag_alt : ℕ
  pub alt_dir : Option Text
  pub lookup_uid : ℕ → L.State → ℕ
  -- the flags of a record, `none` where there is no record
  pub lookup_flags : ℕ → L.State → Option ℕ
  -- the oid in the plugin's part of a record
  pub lookup_ext : ℕ → L.State → Option Text
  pub is_expunged : ℕ → L.State → Bool
  pub mail_index_expunge : ℕ → L.State → L.State
  pub add_alt_flag : ℕ → L.State → L.State
  pub remove_alt_flag : ℕ → L.State → L.State
  pub get_keywords : L.State → Option (List Text)
  pub get_header : L.State → Option ViewHeader
  pub lookup_seq_range : ℕ → ℕ → L.State → Option (ℕ × ℕ)
  pub recent_flags_set_seqs : ℕ → ℕ → L.State → L.State
  pub guid_128_to_string : Text → Text
  pub open_rados_connection : Bool → Pools L → L.State → ℤ × Pools L × L.State
  pub mailbox_create_indexes : L.State → ℤ × L.State
  pub set_mailbox_corrupted : L.State → L.State
  pub set_critical : L.State → L.State

pub record ExpungedItem : Type 0 where
  pub uid : ℕ
  pub oid : Text
  pub alt_storage : Bool

-- The number of rounds of `for (; seq1 <= seq2; seq1++)`; a `seq2` of `UINT32_MAX`, which is no
-- number of a record, would not end.
abbrev pub rounds : ℕ → ℕ → ℕ
rounds seq1 seq2 = suc seq2 - seq1

module _ (L : Librados) (K : SyncCalls L) where
  unfoldable pub is_in_alt : ℕ → Bool
  is_in_alt mail_flags =
      is_alternate_storage_set K.rbox_index_flag_alt mail_flags && is_alternate_pool_valid K.alt_dir

  -- `none` is the result -1.
  abbrev pub get_oid_from_index : ℕ → L.State → Option Text
  get_oid_from_index seq s = K.lookup_ext seq s

  -- One round of `rbox_sync_expunge`; a mail without an oid is expunged and no item is kept.
  unfoldable pub expunge_one : ℕ → List ExpungedItem → L.State → List ExpungedItem × L.State
  expunge_one seq items s = elim (K.lookup_flags seq s) [
    | none ↦ (items, s)
    | some mail_flags ↦
        if K.is_expunged seq s
        then (items, s)
        else let s1 = K.mail_index_expunge seq s in
          elim (get_oid_from_index seq s1) [
            | none ↦ (items, s1)
            | some oid ↦ (
              items
                  ++ record {
                    uid = K.lookup_uid seq s;
                    oid = oid;
                    alt_storage = is_in_alt mail_flags;
                  }
                    ∷ [],
              s1,
            )
          ]
  ]

  -- With `n` rounds to go.
  unfoldable pub expunge_from : ℕ → ℕ → List ExpungedItem → L.State → List ExpungedItem × L.State
  expunge_from zero seq items s = (items, s)
  expunge_from (suc n) seq items s =
      let (items1, s1) = expunge_one seq items s in expunge_from n (suc seq) items1 s1

  unfoldable pub sync_expunge : ℕ → ℕ → List ExpungedItem → L.State → List ExpungedItem × L.State
  sync_expunge seq1 seq2 items s = expunge_from (rounds seq1 seq2) seq1 items s
