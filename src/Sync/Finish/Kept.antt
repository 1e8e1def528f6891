-- ===== src/Sync/Finish/Kept.antt =====
-- Which objects the end of the synchronisation leaves alone.
use dovecot_ceph_plugin.Prelude.{
  ℕ, zero, suc, ◌≡◌, refl, sym, ap, ◌∙◌, ℤ, pos, minus_one, is_neg, int_eq, Bool, true, false, not,
  ◌&&◌, Option, List, [], ◌∷◌, Text, All, Bool-cases, inl, inr, arith, if◌then◌else◌,
}
use mathlib.Core.Path.{subst}
use dovecot_ceph_plugin.Librados.{Librados}
use dovecot_ceph_plugin.Librados.Objects.{Object}
use dovecot_ceph_plugin.Librados.Laws.{ObjectLaws}
use dovecot_ceph_plugin.Mailbox.{Pools}
use dovecot_ceph_plugin.Sync.{SyncCalls, ExpungedItem}
use dovecot_ceph_plugin.Sync.Finish.{
  FinishCalls, timed_out, retry_remove, remove_object, object_io_ctx, object_expunge, expunge_each,
  expunge_rbox_objects, sync_finish,
}

-- Dovecot's calls and the opening of a connection change no object of a mail.
pub record KeepLaws (L : Librados) (w : ObjectLaws L) (K : SyncCalls L) (F : FinishCalls L)
    : Type 0 where
  pub open_keeps :
      (b : Bool) (p : Pools L) (s : L.State)
      → w.object (K.open_rados_connection b p s).2 ≡ w.object s
  pub commit_keeps : (s : L.State) → w.object (F.index_sync_commit s).1 ≡ w.object s
  pub rollback_keeps : (s : L.State) → w.object (F.index_sync_rollback s) ≡ w.object s
  pub error_keeps : (s : L.State) → w.object (F.mailbox_set_index_error s) ≡ w.object s
  pub ref_keeps : (s : L.State) → w.object (F.view_ref s) ≡ w.object s
  pub close_keeps : (s : L.State) → w.object (F.view_close s) ≡ w.object s
  pub deinit_keeps : (s : L.State) → w.object (F.expunging_deinit s) ≡ w.object s
  pub notify_keeps : (uid : ℕ) (s : L.State) → w.object (F.notify uid s) ≡ w.object s
  pub end_keeps : (s : L.State) → w.object (F.notify_end s) ≡ w.object s

module _ (L : Librados) (w : ObjectLaws L) (K : SyncCalls L) (F : FinishCalls L)
    (k : KeepLaws L w K F) where
  -- A failed synchronisation removes nothing: where the caller reports a failure, or the index cannot be
  -- committed, every object is as it was, and the result is -1.
  pub sync_finish_failed :
      (success : Bool) (items : List ExpungedItem) (p : Pools L) (s : L.State)
      → success && not (is_neg (F.index_sync_commit (F.view_ref s)).0) ≡ false
      → (w.object (sync_finish L K F success items p s).2 ≡ w.object s)
        × ((sync_finish L K F success items p s).0 ≡ minus_one)
  unfolding sync_finish
  sync_finish_failed false items p s h = (k.deinit_keeps _ ∙ k.rollback_keeps s, refl)
  sync_finish_failed true items p s h =
      let (ret, s1) = F.index_sync_commit (F.view_ref s) in
      ground (
        arith,
        k.deinit_keeps (F.mailbox_set_index_error s1),
        k.error_keeps s1,
        k.commit_keeps (F.view_ref s),
        k.ref_keeps s,
      )

  -- A property of the objects that one removal preserves is preserved by all of them.
  module _ (Q : (L.IoCtx → Text → Option Object) → Type 0) where
    retry_remove-preserves :
        (n : ℕ) (c : L.IoCtx) (oid : Text) (ret : ℤ) (s : L.State)
        → ((t : L.State) → Q (w.object t) → Q (w.object (L.remove c oid t).1))
        → Q (w.object s)
        → Q (w.object (retry_remove L n c oid ret s).1)
    unfolding retry_remove
    retry_remove-preserves zero c oid ret s step q = q
    retry_remove-preserves (suc n) c oid ret s step q =
        let (answer, s1) = L.remove c oid s in
        elim (is_neg answer)
          as (λ b. Q (
            w.object
              (elim b as (λ x. ℤ × L.State) [
                | true ↦ retry_remove L n c oid answer s1
                | false ↦ (answer, s1)
              ]).1)) [
                | true ↦ retry_remove-preserves n c oid answer s1 step (step s q)
                | false ↦ step s q
              ]

    remove_object-preserves :
        (c : L.IoCtx) (oid : Text) (s : L.State)
        → ((t : L.State) → Q (w.object t) → Q (w.object (L.remove c oid t).1))
        → Q (w.object s)
        → Q (w.object (remove_object L c oid s).1)
    unfolding remove_object
    remove_object-preserves c oid s step q =
        let (answer, s1) = L.remove c oid s in
        elim (int_eq answer timed_out)
          as (λ b. Q (
            w.object
              (let r : ℤ × L.State =
                  if b then retry_remove L 10 c oid answer s1 else (answer, s1) in
                r).1)) [
                  | true ↦ retry_remove-preserves 10 c oid answer s1 step (step s q)
                  | false ↦ step s q
                ]

-- The mailbox's connections are open already: opening them again changes no storage.
module _ (L : Librados) (w : ObjectLaws L) (K : SyncCalls L) (F : FinishCalls L)
    (k : KeepLaws L w K F) (p : Pools L)
    (opened : (b : Bool) (t : L.State) → (K.open_rados_connection b p t).1 ≡ p) where
  pub object_expunge-pools :
      (item : ExpungedItem) (s : L.State) → (object_expunge L K F item p s).1 ≡ p
  unfolding object_expunge
  object_expunge-pools item s = ground (arith, opened item.alt_storage s)

  pub expunge_each-first :
      (item : ExpungedItem) (items : List ExpungedItem) (s : L.State)
      → expunge_each L K F (item ∷ items) p s
        ≡ expunge_each L K F items p (object_expunge L K F item p s).2
  unfolding expunge_each
  expunge_each-first item items s =
      ap (λ q. expunge_each L K F items q (object_expunge L K F item p s).2)
        (object_expunge-pools item s)

  module _ (Q : (L.IoCtx → Text → Option Object) → Type 0) where
    abbrev pub Steps : ExpungedItem → Type 0
    Steps item =
        (t : L.State)
        → Q (w.object t)
        → Q (w.object (L.remove (object_io_ctx L item p) (K.guid_128_to_string item.oid) t).1)

    pub object_expunge-preserves :
        (item : ExpungedItem) (s : L.State)
        → Steps item
        → Q (w.object s)
        → Q (w.object (object_expunge L K F item p s).2)
    unfolding object_expunge
    object_expunge-preserves item s step q =
        let (ret, p1, s1) = K.open_rados_connection item.alt_storage p s in
        let oid = K.guid_128_to_string item.oid in
        let q1 : Q (w.object s1) = rw (k.open_keeps item.alt_storage p s) q in
        let q2 : Q (w.object (remove_object L (object_io_ctx L item p1) oid s1).1) =
          rw (opened item.alt_storage s)
            (remove_object-preserves L w K F k Q (object_io_ctx L item p) oid s1 step q1) in
        elim (is_neg ret)
          as (λ b. Q (
            w.object
              (let r : ℤ × Pools L × L.State =
                  if b
                  then (ret, p1, s1)
                  else let (ret2, s2) = remove_object L (object_io_ctx L item p1) oid s1 in
                    (ret2, p1, F.notify item.uid s2) in
                r).2)) [ true ↦ q1 | false ↦ rw (k.notify_keeps item.uid _) q2 ]

    pub expunge_each-preserves :
        (items : List ExpungedItem) (s : L.State)
        → All Steps items
        → Q (w.object s)
        → Q (w.object (expunge_each L K F items p s).1)
    unfolding expunge_each
    expunge_each-preserves [] s steps q = q
    expunge_each-preserves (item ∷ items) s (step, steps) q =
        subst (λ r. Q (w.object r.1)) (sym (expunge_each-first item items s))
          (expunge_each-preserves items _ steps (object_expunge-preserves item s step q))

  pub sync_finish_result :
      (items : List ExpungedItem) (s : L.State)
      → is_neg (F.index_sync_commit (F.view_ref s)).0 ≡ false
      → (sync_finish L K F true items p s).0 ≡ pos 0
  unfolding sync_finish
  sync_finish_result items s h = ground arith

  -- A successful end, on the objects.
  pub sync_finish_ok :
      (items : List ExpungedItem) (s : L.State)
      → is_neg (F.index_sync_commit (F.view_ref s)).0 ≡ false
      → w.object (sync_finish L K F true items p s).2
        ≡ w.object (expunge_each L K F items p (F.index_sync_commit (F.view_ref s)).1).1
  unfolding sync_finish expunge_rbox_objects
  sync_finish_ok items s h =
      let s1 = (F.index_sync_commit (F.view_ref s)).1 in
      let s2 = (expunge_each L K F items p s1).1 in
      ground (
        arith,
        k.deinit_keeps (F.view_close (F.notify_end s2)),
        k.close_keeps (F.notify_end s2),
        k.end_keeps s2,
      )

  committed : (s : L.State) → w.object (F.index_sync_commit (F.view_ref s)).1 ≡ w.object s
  committed s = k.commit_keeps (F.view_ref s) ∙ k.ref_keeps s

  abbrev pub AllApart : L.IoCtx → Text → List ExpungedItem → Type 0
  AllApart c oid items =
      All (λ item. w.Apart c oid (object_io_ctx L item p) (K.guid_128_to_string item.oid)) items

  apart-Steps :
      (c : L.IoCtx) (oid : Text) (x : Option Object) (items : List ExpungedItem)
      → AllApart c oid items
      → All (Steps (λ objects. objects c oid ≡ x)) items
  apart-Steps c oid x [] h = tt
  apart-Steps c oid x (item ∷ items) (a, h) = (
    λ t q. w.remove_apart (object_io_ctx L item p) c (K.guid_128_to_string item.oid) oid t a ∙ q,
    apart-Steps c oid x items h,
  )

  -- However the synchronisation ends, an object apart from those of the expunged mails is as it was;
  -- the connections are open already.
  pub sync_finish-keeps :
      (success : Bool) (items : List ExpungedItem) (s : L.State) (c : L.IoCtx) (oid : Text)
      → AllApart c oid items
      → w.object (sync_finish L K F success items p s).2 c oid ≡ w.object s c oid
  sync_finish-keeps false items s c oid h =
      λ i. (sync_finish_failed L w K F k false items p s refl).0 i c oid
  sync_finish-keeps true items s c oid h =
      elim (Bool-cases (is_neg (F.index_sync_commit (F.view_ref s)).0)) [
        | inl e ↦ λ i. (sync_finish_failed L w K F k true items p s (rw e refl)).0 i c oid
        | inr e ↦
            (λ i. sync_finish_ok items s e i c oid)
            ∙ expunge_each-preserves (λ objects. objects c oid ≡ w.object s c oid) items _
                (apart-Steps c oid (w.object s c oid) items h) (λ i. committed s i c oid)
      ]
