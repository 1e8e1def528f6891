-- ===== src/Sync/Finish/Gone.antt =====
-- The objects of the expunged mails at the end of the synchronisation.
use dovecot_ceph_plugin.Prelude.{
  ℕ, zero, suc, ◌≡◌, sym, ℤ, pos, is_neg, is_zero, Bool, true, false, ◌&&◌, none, List, [], ◌∷◌,
  Text, All, arith,
}
use mathlib.Core.Path.{subst}
use dovecot_ceph_plugin.Librados.{Librados}
use dovecot_ceph_plugin.Librados.Laws.{ObjectLaws, RemoveLaws}
use dovecot_ceph_plugin.Mailbox.{Pools}
use dovecot_ceph_plugin.Sync.{SyncCalls, ExpungedItem}
use dovecot_ceph_plugin.Sync.Finish.{
  FinishCalls, retry_remove, remove_object, object_io_ctx, object_expunge, expunge_each,
  sync_finish,
}
use dovecot_ceph_plugin.Sync.Finish.Kept.{
  KeepLaws, Steps, object_expunge-pools, expunge_each-first, expunge_each-preserves, sync_finish_ok,
  sync_finish_result,
}

-- Whether the last answer for every item is 0.
unfoldable pub all_removed :
    (L : Librados) → SyncCalls L → FinishCalls L → List ExpungedItem → Pools L → L.State → Bool
all_removed L K F [] p s = true
all_removed L K F (item ∷ items) p s =
    let (ret, p1, s1) = object_expunge L K F item p s in
    is_zero ret && all_removed L K F items p1 s1

module _ (L : Librados) (w : ObjectLaws L) (K : SyncCalls L) (F : FinishCalls L)
    (k : KeepLaws L w K F) (p : Pools L)
    (opened : (b : Bool) (t : L.State) → (K.open_rados_connection b p t).1 ≡ p)
    (r : RemoveLaws L w) where
  -- What is gone stays gone.
  none-Steps :
      (c : L.IoCtx) (oid : Text) (items : List ExpungedItem)
      → All (Steps L w K F k p opened (λ objects. objects c oid ≡ none)) items
  none-Steps c oid [] = tt
  none-Steps c oid (item ∷ items) = (
    λ t q. r.remove_none (object_io_ctx L item p) c (K.guid_128_to_string item.oid) oid t q,
    none-Steps c oid items,
  )

  abbrev pub IsGone : L.State → ExpungedItem → Type 0
  IsGone s item = w.object s (object_io_ctx L item p) (K.guid_128_to_string item.oid) ≡ none

  retry_remove-none :
      (n : ℕ) (c : L.IoCtx) (oid : Text) (ret : ℤ) (s : L.State)
      → is_zero ret ≡ false
      → is_zero (retry_remove L n c oid ret s).0 ≡ true
      → w.object (retry_remove L n c oid ret s).1 c oid ≡ none
  unfolding retry_remove
  retry_remove-none zero c oid ret s h e = ground arith
  retry_remove-none (suc n) c oid ret s h e = ground (
    arith,
    w.remove_ok c oid s,
    retry_remove-none n c oid (L.remove c oid s).0 (L.remove c oid s).1,
  )

  remove_object-none :
      (c : L.IoCtx) (oid : Text) (s : L.State)
      → is_zero (remove_object L c oid s).0 ≡ true
      → w.object (remove_object L c oid s).1 c oid ≡ none
  unfolding remove_object
  remove_object-none c oid s h = ground (
    arith,
    w.remove_ok c oid s,
    retry_remove-none 10 c oid (L.remove c oid s).0 (L.remove c oid s).1,
  )

  object_expunge-IsGone :
      (item : ExpungedItem) (s : L.State)
      → is_zero (object_expunge L K F item p s).0 ≡ true
      → IsGone (object_expunge L K F item p s).2 item
  unfolding object_expunge
  object_expunge-IsGone item s h =
      let oid = K.guid_128_to_string item.oid in
      let c = object_io_ctx L item p in
      let s1 = (K.open_rados_connection item.alt_storage p s).2 in
      ground (
        arith,
        opened item.alt_storage s,
        k.notify_keeps item.uid (remove_object L c oid s1).1,
        remove_object-none c oid s1,
      )

  expunge_each-IsGone :
      (items : List ExpungedItem) (s : L.State)
      → all_removed L K F items p s ≡ true
      → All (IsGone (expunge_each L K F items p s).1) items
  unfolding expunge_each all_removed
  expunge_each-IsGone [] s h = tt
  expunge_each-IsGone (item ∷ items) s h =
      let s1 = (object_expunge L K F item p s).2 in
      let rest : all_removed L K F items p s1 ≡ true =
        ground (arith, object_expunge-pools L w K F k p opened item s) in
      let gone = object_expunge-IsGone item s (ground arith) in
      subst (λ r. All (IsGone r.1) (item ∷ items))
        (sym (expunge_each-first L w K F k p opened item items s))
        (
          expunge_each-preserves L w K F k p opened
              (λ objects. objects (object_io_ctx L item p) (K.guid_128_to_string item.oid) ≡ none)
              items s1 (none-Steps (object_io_ctx L item p) (K.guid_128_to_string item.oid) items)
              gone,
          expunge_each-IsGone items s1 rest,
        )

  -- Once the index is committed and every removal reports success, no object of an expunged mail is
  -- left, and the result is 0; the connections are open already.
  pub sync_finish-IsGone :
      (items : List ExpungedItem) (s : L.State)
      → is_neg (F.index_sync_commit (F.view_ref s)).0 ≡ false
      → all_removed L K F items p (F.index_sync_commit (F.view_ref s)).1 ≡ true
      → All (IsGone (sync_finish L K F true items p s).2) items
        × ((sync_finish L K F true items p s).0 ≡ pos 0)
  sync_finish-IsGone items s h e = (
    subst
        (λ objects.
          All (λ item. objects (object_io_ctx L item p) (K.guid_128_to_string item.oid) ≡ none)
            items)
        (sym (sync_finish_ok L w K F k p opened items s h)) (expunge_each-IsGone items _ e),
    sync_finish_result L w K F k p opened items s h,
  )
