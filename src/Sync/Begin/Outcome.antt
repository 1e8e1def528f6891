-- ===== src/Sync/Begin/Outcome.antt =====
-- How the synchronisation begins and ends.
use dovecot_ceph_plugin.Prelude.{◌≡◌, ℤ, true, false, Option, some, List, arith}
use dovecot_ceph_plugin.Librados.{Librados}
use dovecot_ceph_plugin.Mailbox.{Pools}
use dovecot_ceph_plugin.Sync.{SyncCalls, SyncRec, ExpungedItem}
use dovecot_ceph_plugin.Sync.Finish.{FinishCalls}
use dovecot_ceph_plugin.Sync.Begin.{
  BeginCalls, SyncFlags, begin_changes, begin_index, needs_rebuild, suspects, prepare, sync_begin,
}

module _ (L : Librados) (K : SyncCalls L) (F : FinishCalls L) (B : BeginCalls L)
    (sync_index : List SyncRec
      → Pools L
      → L.State
      → Option (ℤ × List ExpungedItem × Pools L × L.State)) where
  -- Where Dovecot's header has the flag FSCKD and it is not set, a rebuild that is asked for is not
  -- made: the index is not built anew, its changes are gone through as if nothing had been asked.
  pub sync_begin_unforced :
      (fl : SyncFlags) (p : Pools L) (s : L.State)
      → fl.force_rebuild ≡ true
      → B.fsckd s ≡ some false
      → sync_begin L K F B sync_index fl p s
        ≡ begin_changes L K F B sync_index false (begin_index L K F B true false fl s) p
  unfolding sync_begin needs_rebuild suspects prepare
  sync_begin_unforced fl p s h e = ground arith
