-- ===== src/Save/Written.antt =====
-- src/storage-rbox/rbox-save.cpp: what the whole of `save_mail_write_append` leaves in the store.
use dovecot_ceph_plugin.Prelude.{
  ℕ, ◌*◌, ◌<◌, ℤ, pos, minus_one, is_neg, of_bool, Bool, true, false, ◌≡◌, refl, ap, ◌∙◌, inl, inr,
  Bool-cases, some, List, [], ◌∷◌, All, length, take, arith, ◌==◌, ==_iff, if◌then◌else◌,
}
use dovecot_ceph_plugin.Librados.{Librados, WriteStep, write}
use dovecot_ceph_plugin.Librados.Laws.{ObjectLaws}
use dovecot_ceph_plugin.Storage.{Storage, Mail, execute_operation}
use dovecot_ceph_plugin.Storage.Chunks.{count, chunk_count-pos, ends_all}
use dovecot_ceph_plugin.Storage.Write.{Keeps, bytes, operate-Keeps, operate-write}
use dovecot_ceph_plugin.Save.{append_chunks, save_mail_write_append}
use dovecot_ceph_plugin.Save.Append.{IsSized, Saved, saved, reported, size_read, append_chunks_lem}

not_zero : (n : ℕ) → 0 < n → n == 0 ≡ false
not_zero n h = ground arith

not_negative : (b : Bool) → is_neg (of_bool b) ≡ false
not_negative true = refl
not_negative false = refl

module _ (L : Librados) (w : ObjectLaws L) (st : Storage L) (mail : Mail) (m : ℕ) (v : IsSized mail)
    (positive : 0 < m) (narrow : m < 4294967296) where
  written-Saved :
      (r : Bool × L.State)
      → (r.0 ≡ true → bytes L w st mail.oid r.1 ≡ mail.mail_buffer)
      → Saved L w st mail (if r.0 then some (pos 0, r.1) else some (minus_one, r.1))
  written-Saved (true, s) f = saved s refl (f refl)
  written-Saved (false, s) f = reported s refl

  -- A mail of one chunk.
  append_chunks-single :
      (ret : ℤ) (s : L.State)
      → bytes L w st mail.oid s ≡ []
      → Saved L w st mail (append_chunks L m (pos 1) mail st 1 0 ret s)
  unfolding append_chunks
  append_chunks-single ret s empty =
      written-Saved (execute_operation L mail.oid (write 0 mail.mail_buffer ∷ []) st s)
        (operate-write L w st mail.oid mail.mail_buffer s empty)

  count-positive : 0 < length mail.mail_buffer → 0 < count (length mail.mail_buffer) m
  count-positive h = ground (arith, ends_all _ m v.small positive narrow)

  starts :
      (s : L.State)
      → bytes L w st mail.oid s ≡ []
      → bytes L w st mail.oid s ≡ take (0 * m) mail.mail_buffer
  starts s h =
      let none_yet : 0 ≡ 0 * m = omega arith in h ∙ ap (λ j. take j mail.mail_buffer) none_yet

  -- The loop from its start, however many chunks there are.
  all_chunks :
      (ret : ℤ) (s : L.State)
      → 0 < length mail.mail_buffer
      → bytes L w st mail.oid s ≡ []
      → Saved L w st mail (
          append_chunks L m
            (pos (count (length mail.mail_buffer) m))
            mail
            st
            (count (length mail.mail_buffer) m)
            0
            ret
            s)
  all_chunks ret s filled empty = elim (Bool-cases (count (length mail.mail_buffer) m == 1)) [
    | inl one ↦ rw ((==_iff _ 1).0 one) (append_chunks-single ret s empty)
    | inr several ↦
        append_chunks_lem L w st mail m v positive narrow (count (length mail.mail_buffer) m) 0 ret
          _ s several (omega arith) (starts s empty)
          (λ e. absurd (omega (arith, count-positive filled)))
  ]

  -- A non-empty mail below 2 ^ 31 bytes whose object holds no bytes yet, chunks of any length below
  -- 2 ^ 32, attributes that are written first, and a store that may refuse any of the calls: the
  -- write returns, and either reports an error or has put exactly the bytes of the mail into the
  -- object.
  pub save_mail_write_append-Saved :
      (write_op_xattr : List (WriteStep L.IoCtx)) (s : L.State)
      → All Keeps write_op_xattr
      → 0 < length mail.mail_buffer
      → bytes L w st mail.oid s ≡ []
      → Saved L w st mail (save_mail_write_append L mail write_op_xattr m st s)
  unfolding save_mail_write_append
  save_mail_write_append-Saved write_op_xattr s keeps filled empty =
      rw
        (
          not_zero m positive,
          size_read L w st mail m v positive narrow,
          not_zero (length mail.mail_buffer) filled,
          not_negative (execute_operation L mail.oid write_op_xattr st s).0,
          chunk_count-pos _ m v.small positive narrow,
        )
        (all_chunks _ _ filled (operate-Keeps L w st mail.oid write_op_xattr s keeps ∙ empty))

  -- A failure of the operation that writes a mail's attributes is lost: on a connected storage, when
  -- that operation reports an error and the only chunk is then written, the mail counts as saved.
  pub save_mail_write_append_unwritten :
      (write_op_xattr : List (WriteStep L.IoCtx)) (s : L.State)
      → st.is_connected ≡ true
      → st.io_ctx_created ≡ true
      → count (length mail.mail_buffer) m ≡ 1
      → 0 < length mail.mail_buffer
      → is_neg (L.operate st.io_ctx mail.oid write_op_xattr s).0 ≡ true
      → is_neg
          (L.operate st.io_ctx mail.oid
            (write 0 mail.mail_buffer ∷ [])
            (L.operate st.io_ctx mail.oid write_op_xattr s).1).0
        ≡ false
      → save_mail_write_append L mail write_op_xattr m st s
        ≡ some (
          pos 0,
          (L.operate st.io_ctx mail.oid
              (write 0 mail.mail_buffer ∷ [])
              (L.operate st.io_ctx mail.oid write_op_xattr s).1).1,
        )
  unfolding save_mail_write_append append_chunks execute_operation
  save_mail_write_append_unwritten write_op_xattr s connected created one filled refused written =
      rw
        (
          not_zero m positive,
          size_read L w st mail m v positive narrow,
          not_zero (length mail.mail_buffer) filled,
          connected,
          created,
          refused,
          chunk_count-pos _ m v.small positive narrow,
          one,
          written,
        )
        refl
