-- ===== src/Storage.antt =====
-- src/librmb/rados-storage-impl.cpp: mails as objects. The storage keeps the io contexts of one pool and
-- of the recovery index; what an io context does is librados.
pub mod Chunks
pub mod Transfer
pub mod Recovery
pub mod Index
pub mod Move
pub mod Write
pub mod Connect
pub mod Search
pub mod Tests
use dovecot_ceph_plugin.Prelude.{
  ℕ, zero, suc, ◌+◌, ◌*◌, ◌/◌, ◌%◌, ◌^◌, ℤ, pos, negsuc, minus_one, is_neg, is_zero, to_int, to_u64,
  pos_part, int_eq, Bool, true, false, not, ◌&&◌, ◌||◌, Option, none, some, List, [], ◌∷◌, ◌++◌,
  map, Text, Map, TextSet, str_eq, is_empty, length, ltb, leb, ◌==◌, if◌then◌else◌, c_str,
}
use dovecot_ceph_plugin.Librados.{
  Librados, WriteStep, mtime, setxattr, omap_set, write, copy_from, set_alloc_hint,
}
use dovecot_ceph_plugin.Metadata.{RadosMetadata}
use dovecot_ceph_plugin.Util.{convert_to_ceph_index, convert_set_to_ceph_index, ceph_index_to_set}

-- What `RadosStorageImpl` keeps; `is_connected` is the answer of its cluster.
pub record Storage (L : Librados) : Type 0 where
  pub is_connected : Bool
  pub io_ctx_created : Bool
  pub io_ctx : L.IoCtx
  pub recovery_io_ctx : L.IoCtx
  pub nspace : Text
  pub pool_name : Text
  pub max_write_size : ℤ
  pub max_object_size : ℤ

-- The parts of a mail that are written.
pub record Mail : Type 0 where
  pub oid : Text
  pub mail_size : ℤ
  pub mail_buffer : Text
  pub metadata : Map Text
  pub extended_metadata : Map Text
  pub save_date : ℤ

-- The length of chunk number `i`.
unfoldable pub chunk_length : ℕ → ℕ → ℕ → ℕ
chunk_length write_buffer_size max_write i =
    if ltb write_buffer_size (suc i * max_write % 2 ^ 64)
    then write_buffer_size % max_write
    else max_write

-- The number of chunks, an `int`.
unfoldable pub chunk_count : ℕ → ℕ → ℤ
chunk_count write_buffer_size max_write =
    to_int
      (write_buffer_size / max_write + (if ltb 0 (write_buffer_size % max_write) then 1 else 0))

-- `int offset = i * max_write`.
unfoldable pub chunk_offset : ℕ → ℕ → ℤ
chunk_offset max_write i = to_int (i * max_write % 2 ^ 64)

module _ (L : Librados) where
  abbrev pub xattr_steps : List RadosMetadata → List (WriteStep L.IoCtx)
  xattr_steps [] = []
  xattr_steps (m ∷ ms) = setxattr (c_str m.key) m.bl ∷ xattr_steps ms

  abbrev pub metadata_steps : Map Text → List (WriteStep L.IoCtx)
  metadata_steps [] = []
  metadata_steps ((key, bl) ∷ ms) = setxattr (c_str key) bl ∷ metadata_steps ms

  -- The guard of every call.
  abbrev pub is_usable : Storage L → Bool
  is_usable st = st.is_connected && st.io_ctx_created

  unfoldable pub execute_operation :
      Text → List (WriteStep L.IoCtx) → Storage L → L.State → Bool × L.State
  execute_operation oid write_op_xattr st s =
      if not st.is_connected || not st.io_ctx_created
      then (false, s)
      else let (ret, s') = L.operate st.io_ctx oid write_op_xattr s in (not (is_neg ret), s')

  unfoldable pub append_to_object : Text → Text → ℕ → Storage L → L.State → Bool × L.State
  append_to_object oid bufferlist len st s =
      if not st.is_connected || not st.io_ctx_created
      then (false, s)
      else let (ret, s') = L.append_data st.io_ctx oid bufferlist len s in (not (is_neg ret), s')

  pub save_buffer : Text → Text → Storage L → L.State → ℤ × L.State
  save_buffer oid buffer st s = L.write_full st.io_ctx oid buffer s

  pub read_mail : Text → Storage L → L.State → ℤ × Text × L.State
  read_mail oid st s =
      if not st.is_connected || not st.io_ctx_created
      then (minus_one, [], s)
      else L.read st.io_ctx oid s

  unfoldable pub delete_oid : Text → Storage L → L.State → ℤ × L.State
  delete_oid oid st s =
      if not st.is_connected || is_empty oid || not st.io_ctx_created
      then (minus_one, s)
      else L.remove st.io_ctx oid s

  unfoldable pub delete_mail : Option Mail → Storage L → L.State → ℤ × L.State
  delete_mail none st s = (minus_one, s)
  delete_mail (some mail) st s =
      if st.is_connected && st.io_ctx_created then delete_oid mail.oid st s else (minus_one, s)

  pub stat_mail : Text → Storage L → L.State → ℤ × ℕ × ℤ × L.State
  stat_mail oid st s =
      if not st.is_connected || not st.io_ctx_created
      then (minus_one, 0, pos 0, s)
      else L.stat st.io_ctx oid s

  pub set_namespace : Text → Storage L → Storage L
  set_namespace nspace st = record st { io_ctx = L.set_namespace nspace st.io_ctx; nspace = nspace }

  -- The result of the call and of the completion. Its callers have checked the guard.
  unfoldable pub aio_operate :
      L.IoCtx → Text → List (WriteStep L.IoCtx) → Storage L → L.State → ℤ × ℤ × L.State
  aio_operate c oid op st s =
      if not st.is_connected || not st.io_ctx_created
      then (minus_one, pos 0, s)
      else L.aio_operate c oid op s

  -- What chunk `i` writes and where; `substr_of` throws out of range.
  write_chunk : ℕ → ℤ → ℕ → Mail → Option (List (WriteStep L.IoCtx))
  write_chunk max_write div i mail =
      let write_buffer_size = to_u64 mail.mail_size in
      let offset = chunk_offset max_write i in
      let len = chunk_length write_buffer_size max_write i in
      if int_eq div (pos 1)
      then some (set_alloc_hint write_buffer_size len ∷ write 0 mail.mail_buffer ∷ [])
      else elim (L.substr_of mail.mail_buffer (to_u64 offset % 2 ^ 32) (len % 2 ^ 32)) [
        | none ↦ none
        | some tmp ↦ some (set_alloc_hint write_buffer_size len ∷ write (to_u64 offset) tmp ∷ [])
      ]

  -- The loop of `split_buffer_and_exec_op`, from chunk `i` on, with `n` chunks to go.
  write_chunks : ℕ → ℤ → Mail → L.IoCtx → ℕ → ℕ → ℤ → L.State → Option (ℤ × L.State)
  write_chunks max_write div mail io_ctx zero i ret s = some (ret, s)
  write_chunks max_write div mail io_ctx (suc n) i ret s = elim (write_chunk max_write div i mail) [
    | none ↦ none
    | some op ↦
        (let (ret', s') = L.operate io_ctx mail.oid op s in
          if is_neg ret'
          then some (minus_one, s')
          else write_chunks max_write div mail io_ctx n (suc i) ret' s')
  ]

  -- The assertion on `max_write` ends the process.
  pub split_buffer_and_exec_op :
      Mail → List (WriteStep L.IoCtx) → ℕ → Storage L → L.State → Option (ℤ × L.State)
  split_buffer_and_exec_op mail write_op_xattr max_write st s =
      if not st.is_connected || not st.io_ctx_created
      then some (minus_one, s)
      else if max_write == 0
      then none
      else if to_u64 mail.mail_size == 0
      then some (minus_one, s)
      else let (ret, s1) = L.operate st.io_ctx mail.oid write_op_xattr s in
        let div = chunk_count (to_u64 mail.mail_size) max_write in
        if is_neg ret
        then some (minus_one, s1)
        else write_chunks max_write div mail st.io_ctx (pos_part div) 0 ret s1

  -- Both forms of `save_mail` on a mail.
  pub save_mail_op : List (WriteStep L.IoCtx) → Mail → Storage L → L.State → Option (Bool × L.State)
  save_mail_op write_op_xattr mail st s =
      if not st.is_connected || not st.io_ctx_created
      then some (false, s)
      else elim (split_buffer_and_exec_op mail (write_op_xattr ++ mtime mail.save_date ∷ []) 10240
          st s) [ none ↦ none | some (ret, s') ↦ some (is_zero ret, s') ]

  pub save_mail : Mail → Storage L → L.State → Option (Bool × L.State)
  save_mail mail st s =
      if not st.is_connected || not st.io_ctx_created
      then some (false, s)
      else save_mail_op
          (metadata_steps mail.metadata
            ++ (if is_empty mail.extended_metadata
                then []
                else omap_set mail.extended_metadata ∷ []))
          mail st s
