-- ===== src/Copy/Objects.antt =====
-- What a copy does to the objects, to the save log and to the list of the transaction's mails.
use dovecot_ceph_plugin.Prelude.{
  ℕ, zero, suc, ℤ, pos, minus_one, negsuc, is_zero, is_pos, Bool, true, false, ◌≡◌, ◌≢◌, refl, ap,
  ◌∙◌, ◌⊎◌, inl, inr, none, some, List, [], ◌∷◌, ◌++◌, Text, arith, ◌==◌, if◌then◌else◌,
}
use dovecot_ceph_plugin.Librados.{Librados}
use dovecot_ceph_plugin.Librados.Objects.{Object}
use dovecot_ceph_plugin.Librados.Laws.{ObjectLaws}
use dovecot_ceph_plugin.Metadata.{RadosMetadata}
use dovecot_ceph_plugin.Config.{JsonConfig}
use dovecot_ceph_plugin.SaveLog.{entry, op_cpy}
use dovecot_ceph_plugin.SaveLog.File.{append}
use dovecot_ceph_plugin.Storage.{Storage}
use dovecot_ceph_plugin.Storage.Transfer as Transfer
use dovecot_ceph_plugin.Storage.Move.{copy_lem}
use dovecot_ceph_plugin.Copy.Rehomed.{IsRehomed, copy_of-IsRehomed}
use dovecot_ceph_plugin.Save.Begin.{
  BeginCalls, GivenData, NewMail, setup_mail_object, index_append, add_to_index,
}
use dovecot_ceph_plugin.Save.Finish.{SaveContext}
use dovecot_ceph_plugin.Copy.{
  CopyCalls, Boxes, CopyData, CopyState, set_mailbox_metadata, storage_of, storage_copy, copied,
  copy_mail,
}

-- Dovecot's calls on identifiers, indexes and mails change no object.
pub record QuietCalls (L : Librados) (w : ObjectLaws L) (B : BeginCalls L) (C : CopyCalls L)
    : Type 0 where
  pub append_keeps : (uid : ℕ) (s : L.State) → w.object (B.mail_index_append uid s).1 ≡ w.object s
  pub flags_keep : (a b : ℕ) (s : L.State) → w.object (B.update_flags a b s) ≡ w.object s
  pub keywords_keep : (a : ℕ) (s : L.State) → w.object (B.update_keywords a s) ≡ w.object s
  pub modseq_keep : (a b : ℕ) (s : L.State) → w.object (B.update_modseq a b s) ≡ w.object s
  pub ext_keep : (a : ℕ) (g o : Text) (s : L.State) → w.object (B.update_ext a g o s) ≡ w.object s
  pub failed_keep : (s : L.State) → w.object (C.copy_set_failed s) ≡ w.object s
  pub expunged_keep : (s : L.State) → w.object (C.mail_set_expunged s) ≡ w.object s

-- A copy does not change the name of its storage's pool.
module _ (L : Librados) (st : Storage L) where
  copy_same_pool :
      (src_oid src_ns dest_oid dest_ns : Text) (update : List RadosMetadata) (now : ℤ) (s : L.State)
      → (Transfer.copy L src_oid src_ns dest_oid dest_ns update now st s).1.pool_name ≡ st.pool_name
  unfolding Transfer.copy
  copy_same_pool src_oid src_ns dest_oid dest_ns update now s = ground arith

module _ (L : Librados) (w : ObjectLaws L) (B : BeginCalls L) (C : CopyCalls L)
    (q : QuietCalls L w B C) where
  keywords_if :
      (b : Bool) (seq : ℕ) (s : L.State)
      → w.object (if b then B.update_keywords seq s else s) ≡ w.object s
  keywords_if true seq s = q.keywords_keep seq s
  keywords_if false seq s = refl

  modseq_if :
      (b : Bool) (seq n : ℕ) (s : L.State)
      → w.object (if b then s else B.update_modseq seq n s) ≡ w.object s
  modseq_if true seq n s = refl
  modseq_if false seq n s = q.modseq_keep seq n s

  index_append-keeps :
      (d : GivenData) (ctx : SaveContext) (s : L.State)
      → w.object (index_append L B d ctx s).1 ≡ w.object s
  unfolding index_append
  index_append-keeps d ctx s =
      modseq_if (d.min_modseq == 0) _ d.min_modseq _
      ∙ (keywords_if d.has_keywords _ _ ∙ (q.flags_keep _ _ _ ∙ q.append_keeps d.uid s))

  add_to_index-keeps :
      (d : GivenData) (m : NewMail) (ctx : SaveContext) (s : L.State)
      → w.object (add_to_index L B d m ctx s).1 ≡ w.object s
  unfolding add_to_index
  add_to_index-keeps d m ctx s = q.ext_keep _ _ _ _ ∙ index_append-keeps d ctx s

  module _ (cfg : JsonConfig) (boxes : Boxes) (ns_dest : Text) (d : CopyData) (m : NewMail)
      (from_alt : Bool) (c : CopyState L) where
    -- What follows the copy of the object leaves the objects as they are.
    copied-keeps :
        (r : ℤ × Storage L × L.State)
        → w.object (copied L B C cfg boxes ns_dest d m from_alt c r).2 ≡ w.object r.2
    unfolding copied
    copied-keeps (ret, st, s) = ground (
      arith,
      q.failed_keep s,
      q.failed_keep (C.mail_set_expunged s),
      q.expunged_keep s,
      add_to_index-keeps d.given m (record c.ctx { failed = false }) s,
    )

    -- The answer of the copy, the objects, the mail of the context, the log and the list of mails.
    abbrev pub Outcome : L.IoCtx → (Object → Type 0) → ℤ × CopyState L × L.State → Type 0
    Outcome dest_io_ctx IsCopy (ret, c1, s1) =
        (c1.mail_oid ≡ m.mail_oid)
        × (c1.mail_guid ≡ m.mail_guid)
        × (((ret ≡ minus_one)
              × (c1.rados_mail ≡ none)
              × (c1.ctx ≡ c.ctx)
              × (c1.save_log ≡ c.save_log))
            ⊎ ((ret ≡ pos 0)
                × ((y : Object) × IsCopy y × (w.object s1 dest_io_ctx m.mail.oid ≡ some y))
                × (c1.rados_mail ≡ some m.mail)
                × (c1.ctx.rados_mails ≡ c.ctx.rados_mails ++ m.mail ∷ [])
                × (c1.save_log
                    ≡ append
                        (entry m.mail.oid ns_dest
                          (storage_of L B C cfg boxes from_alt c.pools).pool_name op_cpy)
                        c.save_log)))

    copied-Outcome :
        (dest_io_ctx : L.IoCtx) (IsCopy : Object → Type 0) (y : Object) (ret : ℤ) (st : Storage L)
        (s : L.State)
        → st.pool_name ≡ (storage_of L B C cfg boxes from_alt c.pools).pool_name
        → is_pos ret ≡ false
        → IsCopy y
        → (is_zero ret ≡ false) ⊎ (w.object s dest_io_ctx m.mail.oid ≡ some y)
        → Outcome dest_io_ctx IsCopy (copied L B C cfg boxes ns_dest d m from_alt c (ret, st, s))
    unfolding copied add_to_index index_append
    copied-Outcome dest_io_ctx IsCopy y (negsuc n) st s named sign good found =
        (refl, refl, inl (refl, refl, refl, refl))
    copied-Outcome dest_io_ctx IsCopy y (pos (suc n)) st s named sign good found =
        absurd (ground arith)
    copied-Outcome dest_io_ctx IsCopy y (pos zero) st s named sign good (inl e) =
        absurd (ground arith)
    copied-Outcome dest_io_ctx IsCopy y (pos zero) st s named sign good (inr h) = (
      refl,
      refl,
      inr (
        refl,
        (y, good, (λ i. copied-keeps (pos 0, st, s) i dest_io_ctx m.mail.oid) ∙ h),
        refl,
        refl,
        ap (λ name. append (entry m.mail.oid ns_dest name op_cpy) c.save_log) named,
      ),
    )

    -- A mail that was set up is copied to another namespace of the same pool, whose storage is connected,
    -- and the copy does not answer with a positive number. Then the source object is as it was, the
    -- context has the identifiers of the mail that was set up, and either the copy answers -1, the
    -- context has no mail any more and is otherwise as it was, and so is the log; or it answers 0, the
    -- new object has the bytes, the omap and the attributes of the old one, except for the identifier of
    -- the new mailbox, the time of receipt and, where the settings update it, the name of the new
    -- mailbox, the mail is the context's mail and stands last in the list of the transaction, and the
    -- log, where it is open, has gained its line.
    pub copy_mail-Outcome :
        (src_oid ns_src : Text) (s s1 : L.State) (x : Object)
        → setup_mail_object L B d.given s ≡ some (m, s1)
        → (storage_of L B C cfg boxes from_alt c.pools).is_connected ≡ true
        → (storage_of L B C cfg boxes from_alt c.pools).io_ctx_created ≡ true
        → ns_src ≢ ns_dest
        → w.object s1
            (L.set_namespace ns_src (storage_of L B C cfg boxes from_alt c.pools).io_ctx)
            src_oid
          ≡ some x
        → is_pos
            (storage_copy L B C cfg boxes src_oid ns_src m.mail.oid ns_dest d from_alt c.pools s1).0
          ≡ false
        → (result : ℤ × CopyState L × L.State) × (copy_mail L B C cfg boxes src_oid ns_src ns_dest d
              from_alt c s
            ≡ some result)
          × Outcome
              (L.set_namespace ns_dest (storage_of L B C cfg boxes from_alt c.pools).io_ctx)
              (IsRehomed cfg boxes
                (B.guid_128_to_string boxes.dest_guid)
                d.given.received_date
                (C.now s1)
                x)
              result
          × (w.object result.2
                (L.set_namespace ns_src (storage_of L B C cfg boxes from_alt c.pools).io_ctx)
                src_oid
              ≡ some x)
    unfolding copy_mail storage_copy
    copy_mail-Outcome src_oid ns_src s s1 x e connected created apart h sign =
        let st = storage_of L B C cfg boxes from_alt c.pools in
        let update =
          set_mailbox_metadata cfg boxes (B.guid_128_to_string boxes.dest_guid)
            d.given.received_date in
        let r = Transfer.copy L src_oid ns_src m.mail.oid ns_dest update (C.now s1) st s1 in
        let (found, kept) =
          copy_lem L w st src_oid ns_src m.mail.oid ns_dest update (C.now s1) connected created
            apart s1 x h in
        (
          copied L B C cfg boxes ns_dest d m from_alt c r,
          rw (copy_mail, e) refl,
          copied-Outcome _ _ _ r.0 r.1 r.2
              (copy_same_pool L st src_oid ns_src m.mail.oid ns_dest update (C.now s1) s1) sign
              (copy_of-IsRehomed cfg boxes (B.guid_128_to_string boxes.dest_guid)
                d.given.received_date (C.now s1) x)
              found,
          (λ i. copied-keeps r i (L.set_namespace ns_src st.io_ctx) src_oid) ∙ kept,
        )
