-- ===== src/Rmb/Undo.antt =====
-- src/librmb/tools/rmb/rmb-commands.cpp: undoing what a save log lists.
pub mod Lines
pub mod Count
use dovecot_ceph_plugin.Prelude.{
  ℕ, zero, suc, ◌+◌, ℤ, pos, minus_one, is_neg, Bool, true, false, not, ◌&&◌, ◌||◌, Option, none,
  some, List, [], ◌∷◌, ◌++◌, Text, Map, codes, c_str, str_eq, lookup, insert, if◌then◌else◌,
}
use dovecot_ceph_plugin.Librados.{Librados}
use dovecot_ceph_plugin.SaveLog.{RadosSaveLogEntry, Stream, entry, read}
use dovecot_ceph_plugin.Storage.{Storage, delete_oid, set_namespace}
use dovecot_ceph_plugin.Storage.Connect.{
  ClusterCalls, new_storage, open_connection_named, close_connection,
}
use dovecot_ceph_plugin.Storage.Transfer.{move}

-- What the loop keeps: the storage, the entries that were moved back by user, the count.
pub record Undo (L : Librados) : Type 0 where
  pub storage : Storage L
  pub moved_items : Map (List RadosSaveLogEntry)
  pub count : ℕ

module _ (L : Librados) (K : ClusterCalls L) (rados_cluster rados_user : Text) (now : ℤ) where
  add_moved : RadosSaveLogEntry → Map (List RadosSaveLogEntry) → Map (List RadosSaveLogEntry)
  add_moved e moved_items = elim (lookup e.src_user moved_items) [
    | none ↦ insert e.src_user (e ∷ []) moved_items
    | some entries ↦ insert e.src_user (entries ++ e ∷ []) moved_items
  ]

  -- An entry, once its pool is open.
  undo_opened : RadosSaveLogEntry → Undo L → L.State → Undo L × L.State
  undo_opened e u s =
      let st = set_namespace L e.ns u.storage in
      if str_eq e.op (codes "save") || str_eq e.op (codes "cpy")
      then (let (ret_delete, s1) = delete_oid L e.oid st s in
          (
            record u { storage = st; count = if is_neg ret_delete then u.count else u.count + 1 },
            s1,
          ))
      else let (ret, st', s1) =
          move L e.oid (c_str e.ns) e.src_oid (c_str e.src_ns) e.metadata true now st s in
        (
          record u {
            storage = st';
            moved_items = if is_neg ret then u.moved_items else add_moved e u.moved_items;
            count = u.count + 1;
          },
          s1,
        )

  -- The pool of the entry, opened in place of another; false is an error.
  open_pool : RadosSaveLogEntry → Undo L → L.State → Option (Bool × Undo L × L.State)
  open_pool e u s =
      if str_eq u.storage.pool_name e.pool
      then some (true, u, s)
      else let (st, s1) = close_connection L K u.storage s in
        elim (open_connection_named L K e.pool e.pool rados_cluster rados_user st s1) [
          | none ↦ none
          | some (ret, st', s2) ↦ some (not (is_neg ret), record u { storage = st' }, s2)
        ]

  -- One step after another, until one reports an error or throws.
  and_then :
      (Undo L → L.State → Option (Bool × Undo L × L.State))
      → Option (Bool × Undo L × L.State)
      → Option (Bool × Undo L × L.State)
  and_then next none = none
  and_then next (some (false, u, s)) = some (false, u, s)
  and_then next (some (true, u, s)) = next u s

  pub undo_entry : RadosSaveLogEntry → Undo L → L.State → Option (Bool × Undo L × L.State)
  undo_entry e u s =
      and_then (λ u1 s1. let (u2, s2) = undo_opened e u1 s1 in some (true, u2, s2))
        (open_pool e u s)

  -- The loop over the lines; `none` where a call throws, or where there are more lines than rounds.
  pub undo_lines : ℕ → Stream → Undo L → L.State → Option (Bool × Undo L × L.State)
  undo_lines zero is u s = none
  undo_lines (suc fuel) is u s =
      let (is', e) = read is (entry [] [] [] []) in
      elim (is'.eof || is'.fail) [
        | true ↦ some (true, u, s)
        | false ↦ and_then (undo_lines fuel is') (undo_entry e u s)
      ]

  -- What is done at the end, and what is returned.
  finish : Bool × Undo L × L.State → ℤ × Map (List RadosSaveLogEntry) × L.State
  finish (false, u, s) = (minus_one, u.moved_items, K.deinit s)
  finish (true, u, s) = (pos u.count, u.moved_items, K.deinit (close_connection L K u.storage s).1)

  -- Without a place for the moved items, or without a log that can be read, nothing is done.
  pub delete_with_save_log :
      ℕ
      → Option Text
      → Option (Map (List RadosSaveLogEntry))
      → L.State
      → Option (ℤ × Option (Map (List RadosSaveLogEntry)) × L.State)
  delete_with_save_log fuel log none s = some (minus_one, none, s)
  delete_with_save_log fuel none (some moved_items) s = some (minus_one, some moved_items, s)
  delete_with_save_log fuel (some log) (some moved_items) s =
      elim (undo_lines fuel (record { rest = log; eof = false; fail = false })
        (record { storage = new_storage L K s; moved_items = moved_items; count = 0 }) s) [
          | none ↦ none
          | some r ↦ (let (ret, moved, s') = finish r in some (ret, some moved, s'))
        ]
