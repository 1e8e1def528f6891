-- ===== src/Sync/Index/Swallowed.antt =====
-- Failures that the synchronisation does not report.
use dovecot_ceph_plugin.Prelude.{
  ℕ, ◌≡◌, refl, ℤ, pos, minus_one, int_eq, is_neg, Bool, true, false, not, ◌&&◌, Option, none, some,
  List, [], ◌∷◌, every, arith,
}
use dovecot_ceph_plugin.Types.{oldv1_keywords}
use dovecot_ceph_plugin.Librados.{Librados}
use dovecot_ceph_plugin.Config.{JsonConfig}
use dovecot_ceph_plugin.Attributes.{MetadataModule}
use dovecot_ceph_plugin.Alt as Alt
use dovecot_ceph_plugin.Mailbox.{Pools}
use dovecot_ceph_plugin.Sync.{
  SyncCalls, SyncRec, SyncType, ExpungedItem, expunge, flags, keyword_add, keyword_remove,
  other_change,
}
use dovecot_ceph_plugin.Sync.Flags.{update_flags}
use dovecot_ceph_plugin.Sync.Index.{
  Synced, is_written, report, move_to_alt, sync_flags, sync_keyword, sync_range, sync_records,
}

abbrev pub is_keyword : SyncType → Bool
is_keyword (keyword_add keyword_idx) = true
is_keyword (keyword_remove keyword_idx) = true
is_keyword (flags add_flags remove_flags) = false
is_keyword expunge = false
is_keyword other_change = false

module _ (L : Librados) (K : SyncCalls L) (metadata : Alt.MetadataStorage L)
    (M : L.IoCtx → MetadataModule L) (cfg : JsonConfig) where
  -- The process goes on only with the result 1.
  abbrev pub is_well : Synced L K metadata M cfg → Bool
  is_well none = true
  is_well (some (ret, items, p, s)) = int_eq ret (pos 1)

  -- No change of keywords is written.
  abbrev pub is_quiet : SyncRec → Bool
  is_quiet r = not (is_keyword r.change && is_written L K metadata M cfg oldv1_keywords)

  report-is_well :
      (items : List ExpungedItem) (o : Option (ℤ × Pools L × L.State))
      → is_well (report L K metadata M cfg items o) ≡ true
  unfolding report
  report-is_well items none = refl
  report-is_well items (some r) = refl

  sync_flags-is_well :
      (add_flags remove_flags seq1 seq2 : ℕ) (items : List ExpungedItem) (p : Pools L) (s : L.State)
      → is_well (sync_flags L K metadata M cfg add_flags remove_flags seq1 seq2 items p s) ≡ true
  unfolding sync_flags
  sync_flags-is_well add_flags remove_flags seq1 seq2 items p s = ground (
    arith,
    report-is_well items (move_to_alt L K metadata seq1 seq2 false p s),
    report-is_well items (move_to_alt L K metadata seq1 seq2 true p s),
    report-is_well items (update_flags L K M seq1 seq2 add_flags remove_flags p s),
  )

  sync_keyword-is_well :
      (remove : Bool) (keyword_idx seq1 seq2 : ℕ) (items : List ExpungedItem) (p : Pools L)
      (s : L.State)
      → is_written L K metadata M cfg oldv1_keywords ≡ false
      → is_well (sync_keyword L K metadata M cfg remove keyword_idx seq1 seq2 items p s) ≡ true
  unfolding sync_keyword
  sync_keyword-is_well remove keyword_idx seq1 seq2 items p s h = rw (h) refl

  sync_range-is_well :
      (r : SyncRec) (range : Option (ℕ × ℕ)) (items : List ExpungedItem) (p : Pools L) (s : L.State)
      → is_quiet r ≡ true
      → is_well (sync_range L K metadata M cfg r range items p s) ≡ true
  unfolding sync_range
  sync_range-is_well r none items p s h = refl
  sync_range-is_well r (some (seq1, seq2)) items p s h =
      elim r.change
          as (λ change.
            not (is_keyword change && is_written L K metadata M cfg oldv1_keywords) ≡ true
            → is_well (
                sync_range L K metadata M cfg (record r { change = change }) (some (seq1, seq2))
                  items p s)
              ≡ true) [
                | expunge ↦ λ e. refl
                | flags add_flags remove_flags ↦
                    λ e. sync_flags-is_well add_flags remove_flags seq1 seq2 items p s
                | keyword_add keyword_idx ↦
                    λ e. sync_keyword-is_well false keyword_idx seq1 seq2 items p s (ground arith)
                | keyword_remove keyword_idx ↦
                    λ e. sync_keyword-is_well true keyword_idx seq1 seq2 items p s (ground arith)
                | other_change ↦ λ e. refl
              ]
        h

  -- A record and those behind it.
  after_range :
      (rs : List SyncRec) (o : Synced L K metadata M cfg)
      → is_well o ≡ true
      → ((items : List ExpungedItem) (p : Pools L) (s : L.State)
          → is_well (sync_records L K metadata M cfg rs items p s) ≡ true)
      → is_well (elim o [
        | none ↦ none
        | some (ret, items, p, s) ↦ elim (is_neg ret) [
          | true ↦ some (minus_one, items, p, s)
          | false ↦ sync_records L K metadata M cfg rs items p s
        ]
      ])
        ≡ true
  after_range rs none h g = refl
  after_range rs (some (ret, items, p, s)) h g = ground (arith, g items p s)

  -- Where no change of keywords is written, going through the changes of the index never fails: the
  -- result is 1 unless the process ends, whatever becomes of the moves between the pools and of the
  -- writing of flags.
  pub sync_records_quiet :
      (rs : List SyncRec) (items : List ExpungedItem) (p : Pools L) (s : L.State)
      → every is_quiet rs ≡ true
      → is_well (sync_records L K metadata M cfg rs items p s) ≡ true
  unfolding sync_records
  sync_records_quiet [] items p s h = refl
  sync_records_quiet (r ∷ rs) items p s h =
      after_range rs _
        (sync_range-is_well r (K.lookup_seq_range r.uid1 r.uid2 s) items p s (ground arith))
        (λ items1 p1 s1. sync_records_quiet rs items1 p1 s1 (ground arith))
