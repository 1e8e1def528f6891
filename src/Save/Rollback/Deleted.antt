-- ===== src/Save/Rollback/Deleted.antt =====
-- The objects of a transaction that has failed.
use dovecot_ceph_plugin.Prelude.{
  ℕ, is_zero, Bool, true, false, ◌&&◌, ◌≡◌, refl, ◌∙◌, ltb, none, some, List, [], ◌∷◌, All, arith,
  if◌then◌else◌,
}
use dovecot_ceph_plugin.Librados.{Librados}
use dovecot_ceph_plugin.Librados.Laws.{ObjectLaws, RemoveLaws}
use dovecot_ceph_plugin.Storage.{Storage, Mail, delete_mail, delete_oid}
use dovecot_ceph_plugin.Save.Finish.{SaveContext}
use dovecot_ceph_plugin.Save.Rollback.{
  TransactionCalls, delete_mails, clean_up_failed, clean_up_mail_object_list,
}

-- Whether every deletion reports success.
module _ (L : Librados) where
  unfoldable pub all_deleted : List Mail → Storage L → L.State → Bool
  all_deleted [] st s = true
  all_deleted (mail ∷ mails) st s =
      let (ret, s1) = delete_mail L (some mail) st s in is_zero ret && all_deleted mails st s1

module _ (L : Librados) (w : ObjectLaws L) (r : RemoveLaws L w) (T : TransactionCalls L)
    (st : Storage L) where
  abbrev IsGone : L.State → Mail → Type 0
  IsGone s mail = w.object s st.io_ctx mail.oid ≡ none

  delete_mail-IsGone :
      (mail : Mail) (s : L.State)
      → is_zero (delete_mail L (some mail) st s).0 ≡ true
      → IsGone (delete_mail L (some mail) st s).1 mail
  unfolding delete_mail delete_oid
  delete_mail-IsGone mail s h = ground (arith, w.remove_ok st.io_ctx mail.oid s)

  -- What is gone stays gone while others are deleted.
  delete_mail-stays :
      (mail other : Mail) (s : L.State)
      → IsGone s other
      → IsGone (delete_mail L (some mail) st s).1 other
  unfolding delete_mail delete_oid
  delete_mail-stays mail other s h =
      ground (arith, r.remove_none st.io_ctx st.io_ctx mail.oid other.oid s)

  delete_mails-stays :
      (mails : List Mail) (other : Mail) (s : L.State)
      → IsGone s other
      → IsGone (delete_mails L T mails st s) other
  unfolding delete_mails
  delete_mails-stays [] other s h = h
  delete_mails-stays (mail ∷ mails) other s h =
      delete_mails-stays mails other _ (delete_mail-stays mail other s h)

  delete_mails-IsGone :
      (mails : List Mail) (s : L.State)
      → all_deleted L mails st s ≡ true
      → All (IsGone (delete_mails L T mails st s)) mails
  unfolding delete_mails all_deleted
  delete_mails-IsGone [] s h = tt
  delete_mails-IsGone (mail ∷ mails) s h = (
    delete_mails-stays mails mail _ (delete_mail-IsGone mail s (ground arith)),
    delete_mails-IsGone mails _ (ground arith),
  )

-- Dovecot's calls on an index and its cache change no object.
pub record IndexLaws (L : Librados) (w : ObjectLaws L) (T : TransactionCalls L) : Type 0 where
  pub expunge_keeps : (seq : ℕ) (s : L.State) → w.object (T.mail_index_expunge seq s) ≡ w.object s
  pub reset_keeps : (s : L.State) → w.object (T.mail_cache_transaction_reset s) ≡ w.object s

module _ (L : Librados) (w : ObjectLaws L) (r : RemoveLaws L w) (T : TransactionCalls L)
    (i : IndexLaws L w T) (st : Storage L) where
  -- The index and the cache, once the objects are deleted.
  index_keeps :
      (b c : Bool) (seq : ℕ) (s : L.State)
      → w.object (
          if c
          then T.mail_cache_transaction_reset (if b then T.mail_index_expunge seq s else s)
          else if b
          then T.mail_index_expunge seq s
          else s)
        ≡ w.object s
  index_keeps true true seq s = i.reset_keeps _ ∙ i.expunge_keeps seq s
  index_keeps true false seq s = i.expunge_keeps seq s
  index_keeps false true seq s = i.reset_keeps s
  index_keeps false false seq s = refl

  -- Where every deletion reports success, cleaning up after a failure leaves no object of the mails of
  -- the transaction, and no mail in its list.
  pub clean_up_failed-IsGone :
      (ctx : SaveContext) (s : L.State)
      → all_deleted L ctx.rados_mails st s ≡ true
      → All
          (λ mail. w.object (clean_up_failed L T st ctx s).1 st.io_ctx mail.oid ≡ none)
          ctx.rados_mails
        × ((clean_up_failed L T st ctx s).0.rados_mails ≡ [])
  unfolding clean_up_failed clean_up_mail_object_list
  clean_up_failed-IsGone ctx s h = (
    rw
        (index_keeps (ltb 0 ctx.seq) ctx.has_transaction ctx.seq
          (delete_mails L T ctx.rados_mails st s))
        (delete_mails-IsGone L w r T st ctx.rados_mails s h),
    refl,
  )
