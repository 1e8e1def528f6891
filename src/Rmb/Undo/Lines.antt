-- ===== src/Rmb/Undo/Lines.antt =====
-- Undoing the log that a session wrote.
use dovecot_ceph_plugin.Prelude.{
  ℕ, suc, ℤ, Bool, true, false, ◌≡◌, refl, ◌∙◌, Option, none, some, List, [], ◌∷◌, Text, All,
  length,
}
use dovecot_ceph_plugin.Librados.{Librados}
use dovecot_ceph_plugin.SaveLog.{RadosSaveLogEntry, Stream, entry, parse_mv_op, read}
use dovecot_ceph_plugin.SaveLog.File.{lines}
use dovecot_ceph_plugin.SaveLog.RoundTrip.{IsPrintable, read-print, read_end}
use dovecot_ceph_plugin.Storage.Connect.{ClusterCalls}
use dovecot_ceph_plugin.Rmb.Undo.{Undo, and_then, undo_entry, undo_lines}

-- What the reader makes of a printed entry.
abbrev pub reread : RadosSaveLogEntry → RadosSaveLogEntry
reread e = (parse_mv_op (entry e.oid e.ns e.pool e.op)).1

module _ (L : Librados) (K : ClusterCalls L) (rados_cluster rados_user : Text) (now : ℤ) where
  -- The entries undone one after another, until one cannot be.
  unfoldable pub undo_all :
      List RadosSaveLogEntry → Undo L → L.State → Option (Bool × Undo L × L.State)
  unfolding and_then
  undo_all [] u s = some (true, u, s)
  undo_all (e ∷ es) u s =
      and_then L K rados_cluster rados_user now (undo_all es)
        (undo_entry L K rados_cluster rados_user now (reread e) u s)

  and_then_cong :
      (f g : Undo L → L.State → Option (Bool × Undo L × L.State))
      (o : Option (Bool × Undo L × L.State))
      → ((u : Undo L) (s : L.State) → f u s ≡ g u s)
      → and_then L K rados_cluster rados_user now f o
        ≡ and_then L K rados_cluster rados_user now g o
  unfolding and_then
  and_then_cong f g none h = refl
  and_then_cong f g (some (false, u, s)) h = refl
  and_then_cong f g (some (true, u, s)) h = h u s

  turn :
      (fuel : ℕ) (is : Stream) (rest : Text) (e : RadosSaveLogEntry) (u : Undo L) (s : L.State)
      → read is (entry [] [] [] []) ≡ (record { rest = rest; eof = false; fail = false }, e)
      → undo_lines L K rados_cluster rados_user now (suc fuel) is u s
        ≡ and_then L K rados_cluster rados_user now
            (undo_lines L K rados_cluster rados_user now fuel
              (record { rest = rest; eof = false; fail = false }))
            (undo_entry L K rados_cluster rados_user now e u s)
  unfolding undo_lines
  turn fuel is rest e u s h = rw (undo_lines, h, h) refl

  -- The loop over a log that printable entries were written to does what undoing these entries one
  -- after another does, in the order of the log, and it ends: one round more than there are entries
  -- is enough.
  pub undo_lines-lines :
      (es : List RadosSaveLogEntry) (u : Undo L) (s : L.State)
      → All IsPrintable es
      → undo_lines L K rados_cluster rados_user now
          (suc (length es))
          (record { rest = lines es; eof = false; fail = false })
          u
          s
        ≡ undo_all es u s
  unfolding undo_lines undo_all
  undo_lines-lines [] u s h = rw (undo_lines, read_end (entry [] [] [] [])) refl
  undo_lines-lines (e ∷ es) u s (p, h) =
      turn (suc (length es)) _ (lines es) (reread e) u s (read-print e (lines es) p)
      ∙ and_then_cong _ _ (undo_entry L K rados_cluster rados_user now (reread e) u s)
          (λ u' s'. undo_lines-lines es u' s' h)
