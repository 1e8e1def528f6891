-- ===== src/Rmb/Undo/Count.antt =====
-- The count that undoing a log reports.
use dovecot_ceph_plugin.Prelude.{
  ℕ, ◌+◌, ◌≤◌, ℤ, Bool, true, false, ◌≡◌, Option, none, some, List, [], ◌∷◌, Text, length, arith,
}
use dovecot_ceph_plugin.Librados.{Librados}
use dovecot_ceph_plugin.SaveLog.{RadosSaveLogEntry}
use dovecot_ceph_plugin.Storage.Connect.{ClusterCalls}
use dovecot_ceph_plugin.Rmb.Undo.{Undo, and_then, open_pool, undo_opened, undo_entry}
use dovecot_ceph_plugin.Rmb.Undo.Lines.{undo_all, reread}

module _ (L : Librados) (K : ClusterCalls L) (rados_cluster rados_user : Text) (now : ℤ) where
  -- Where a result is given, it counts between `n` and `m`.
  unfoldable pub Counts : ℕ → ℕ → Option (Bool × Undo L × L.State) → Type 0
  Counts n m none = Unit
  Counts n m (some (ok, u, s)) = (n ≤ u.count) × (u.count ≤ m)

  wider :
      (n m k : ℕ) (u : Undo L) (o : Option (Bool × Undo L × L.State))
      → (n ≤ u.count) × (u.count ≤ m)
      → Counts u.count (u.count + k) o
      → Counts n (m + k) o
  unfolding Counts
  wider n m k u none h c = tt
  wider n m k u (some (ok, v, t)) h c = omega arith

  and_then-Counts :
      (f : Undo L → L.State → Option (Bool × Undo L × L.State)) (n m k : ℕ)
      (o : Option (Bool × Undo L × L.State))
      → Counts n m o
      → ((u : Undo L) (s : L.State) → Counts u.count (u.count + k) (f u s))
      → Counts n (m + k) (and_then L K rados_cluster rados_user now f o)
  unfolding and_then Counts
  and_then-Counts f n m k none h g = tt
  and_then-Counts f n m k (some (false, u, s)) h g = omega arith
  and_then-Counts f n m k (some (true, u, s)) h g = wider n m k u (f u s) h (g u s)

  open_pool-Counts :
      (e : RadosSaveLogEntry) (u : Undo L) (s : L.State)
      → Counts u.count u.count (open_pool L K rados_cluster rados_user now e u s)
  unfolding open_pool Counts
  open_pool-Counts e u s = ground arith

  undo_opened-Counts :
      (e : RadosSaveLogEntry) (u : Undo L) (s : L.State)
      → Counts u.count (u.count + 1) (
          some (
            true,
            (undo_opened L K rados_cluster rados_user now e u s).0,
            (undo_opened L K rados_cluster rados_user now e u s).1,
          ))
  unfolding Counts undo_opened
  undo_opened-Counts e u s = ground arith

  undo_entry-Counts :
      (e : RadosSaveLogEntry) (u : Undo L) (s : L.State)
      → Counts u.count (u.count + 1) (undo_entry L K rados_cluster rados_user now e u s)
  unfolding undo_entry
  undo_entry-Counts e u s =
      and_then-Counts _ u.count u.count 1 (open_pool L K rados_cluster rados_user now e u s)
        (open_pool-Counts e u s) (undo_opened-Counts e)

  -- Whatever the calls answer, undoing some entries counts each of them at most once.
  pub undo_all-Counts :
      (es : List RadosSaveLogEntry) (u : Undo L) (s : L.State)
      → Counts u.count (u.count + length es) (undo_all L K rados_cluster rados_user now es u s)
  unfolding undo_all
  undo_all-Counts [] u s = unfold Counts in omega arith
  undo_all-Counts (e ∷ es) u s =
      let sum : u.count + length (e ∷ es) ≡ u.count + 1 + length es = omega arith in
      rw sum (
        and_then-Counts _ u.count (u.count + 1) (length es)
          (undo_entry L K rados_cluster rados_user now (reread e) u s)
          (undo_entry-Counts (reread e) u s) (undo_all-Counts es))
