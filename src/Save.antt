-- ===== src/Save.antt =====
-- src/storage-rbox/rbox-save.cpp: writing a mail in chunks.
pub mod Append
pub mod Written
pub mod Entries
pub mod Begin
pub mod Finish
pub mod Rollback
pub mod Commit
pub mod Tests
use dovecot_ceph_plugin.Prelude.{
  ℕ, zero, suc, ◌+◌, ◌-◌, ◌*◌, ◌%◌, ◌^◌, ℤ, pos, minus_one, is_neg, of_bool, to_u64, pos_part,
  int_eq, Bool, true, false, Option, none, some, List, [], ◌∷◌, Text, length, ltb, ◌==◌,
  if◌then◌else◌,
}
use dovecot_ceph_plugin.Librados.{Librados, WriteStep, write}
use dovecot_ceph_plugin.Storage.{
  Storage, Mail, chunk_length, chunk_count, chunk_offset, execute_operation, append_to_object,
}

module _ (L : Librados) where
  -- The bytes of chunk `i`, cut off where the buffer ends; `substr_of` throws out of range.
  chunk_of : ℤ → ℕ → Text → Option Text
  chunk_of offset len mail_buffer =
      if ltb (length mail_buffer % 2 ^ 32) ((to_u64 offset + len) % 2 ^ 64)
      then L.substr_of mail_buffer (to_u64 offset % 2 ^ 32)
          ((length mail_buffer % 2 ^ 32 + 2 ^ 32 - to_u64 offset % 2 ^ 32) % 2 ^ 32)
      else L.substr_of mail_buffer (to_u64 offset % 2 ^ 32) (len % 2 ^ 32)

  -- The loop, from chunk `i` on, with `n` chunks to go. A mail of one chunk is written at its
  -- start, the chunks of a longer one are appended.
  pub append_chunks : ℕ → ℤ → Mail → Storage L → ℕ → ℕ → ℤ → L.State → Option (ℤ × L.State)
  append_chunks max_write div mail st zero i ret_val s = some (ret_val, s)
  append_chunks max_write div mail st (suc n) i ret_val s =
      let write_buffer_size = to_u64 mail.mail_size in
      let offset = chunk_offset max_write i in
      let len = chunk_length write_buffer_size max_write i in
      elim (int_eq div (pos 1)) [
        | true ↦
            (let (ok, s') = execute_operation L mail.oid (write 0 mail.mail_buffer ∷ []) st s in
              if ok
              then append_chunks max_write div mail st n (suc i) (pos 0) s'
              else some (minus_one, s'))
        | false ↦ elim (ltb write_buffer_size ((to_u64 offset + len) % 2 ^ 64)) [
          | true ↦ some (minus_one, s)
          | false ↦ elim (chunk_of offset len mail.mail_buffer) [
            | none ↦ none
            | some tmp_buffer ↦
                (let (ok, s') = append_to_object L mail.oid tmp_buffer len st s in
                  if ok
                  then append_chunks max_write div mail st n (suc i) (pos 0) s'
                  else some (minus_one, s'))
          ]
        ]
      ]

  -- The assertion on `max_write` ends the process. The Boolean result of the first operation is
  -- kept in an `int`, and tested for being negative.
  pub save_mail_write_append :
      Mail → List (WriteStep L.IoCtx) → ℕ → Storage L → L.State → Option (ℤ × L.State)
  save_mail_write_append mail write_op_xattr max_write st s =
      if max_write == 0
      then none
      else if to_u64 mail.mail_size == 0
      then some (minus_one, s)
      else let (ok, s1) = execute_operation L mail.oid write_op_xattr st s in
        let div = chunk_count (to_u64 mail.mail_size) max_write in
        if is_neg (of_bool ok)
        then some (minus_one, s1)
        else append_chunks max_write div mail st (pos_part div) 0 (of_bool ok) s1
