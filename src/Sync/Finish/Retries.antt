-- ===== src/Sync/Finish/Retries.antt =====
-- How often an object is removed.
use dovecot_ceph_plugin.Prelude.{
  ℕ, zero, suc, ◌+◌, ◌≤◌, ◌≡◌, ℤ, is_neg, int_eq, Bool, true, false, Text, arith, if◌then◌else◌,
}
use dovecot_ceph_plugin.Librados.{Librados}
use dovecot_ceph_plugin.Mailbox.{Pools}
use dovecot_ceph_plugin.Sync.{SyncCalls, ExpungedItem}
use dovecot_ceph_plugin.Sync.Finish.{
  FinishCalls, timed_out, retry_remove, remove_object, object_io_ctx, object_expunge,
}

-- `removals` counts the calls that remove an object; no other call of this part is one.
pub record Counting (L : Librados) (K : SyncCalls L) (F : FinishCalls L) : Type 0 where
  pub removals : L.State → ℕ
  pub remove_counts :
      (c : L.IoCtx) (oid : Text) (s : L.State) → removals (L.remove c oid s).1 ≡ suc (removals s)
  pub open_counts :
      (b : Bool) (p : Pools L) (s : L.State)
      → removals (K.open_rados_connection b p s).2 ≡ removals s
  pub notify_counts : (uid : ℕ) (s : L.State) → removals (F.notify uid s) ≡ removals s

module _ (L : Librados) (K : SyncCalls L) (F : FinishCalls L) (m : Counting L K F) where
  retry_remove-bounded :
      (n : ℕ) (c : L.IoCtx) (oid : Text) (ret : ℤ) (s : L.State)
      → (m.removals s ≤ m.removals (retry_remove L n c oid ret s).1)
        × (m.removals (retry_remove L n c oid ret s).1 ≤ m.removals s + n)
  unfolding retry_remove
  retry_remove-bounded zero c oid ret s = (omega arith, omega arith)
  retry_remove-bounded (suc n) c oid ret s =
      let (answer, s1) = L.remove c oid s in
      let counted = m.remove_counts c oid s in
      elim (is_neg answer)
        as (λ b.
          let t =
            (elim b as (λ x. ℤ × L.State) [
              | true ↦ retry_remove L n c oid answer s1
              | false ↦ (answer, s1)
            ]).1 in
          (m.removals s ≤ m.removals t) × (m.removals t ≤ m.removals s + suc n)) [
            | true ↦
                (let (low, high) = retry_remove-bounded n c oid answer s1 in
                  (omega arith, omega arith))
            | false ↦ (omega arith, omega arith)
          ]

  -- The first answer to the removal of an item, once the connection is open.
  abbrev pub first_answer : ExpungedItem → Pools L → L.State → ℤ
  first_answer item p s =
      let (opened, p1, s1) = K.open_rados_connection item.alt_storage p s in
      (L.remove (object_io_ctx L item p1) (K.guid_128_to_string item.oid) s1).0

  -- An item's object is not removed where the connection cannot be opened, otherwise at least once, and
  -- at most once unless the first answer is a timeout, eleven times in that case.
  pub object_expunge-removals :
      (item : ExpungedItem) (p : Pools L) (s : L.State)
      → let opened = (K.open_rados_connection item.alt_storage p s).0 in
        let after = m.removals (object_expunge L K F item p s).2 in
        (m.removals s + (if is_neg opened then 0 else 1) ≤ after)
        × (after
            ≤ m.removals s
              + (if is_neg opened
                  then 0
                  else if int_eq (first_answer item p s) timed_out
                  then 11
                  else 1))
  unfolding object_expunge remove_object
  object_expunge-removals item p s =
      let (opened, p1, s1) = K.open_rados_connection item.alt_storage p s in
      let c = object_io_ctx L item p1 in
      let oid = K.guid_128_to_string item.oid in
      let (low, high) = retry_remove-bounded 10 c oid (L.remove c oid s1).0 (L.remove c oid s1).1 in
      let counts = m.remove_counts c oid s1 in
      let opens = m.open_counts item.alt_storage p s in
      let notifies = m.notify_counts item.uid (remove_object L c oid s1).1 in
      (ground (arith), ground (arith))
