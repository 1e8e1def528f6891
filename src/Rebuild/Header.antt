-- ===== src/Rebuild/Header.antt =====
-- The plugin's part of an index header, and the rebuild of one mailbox's index.
use dovecot_ceph_plugin.Prelude.{
  ℕ, ◌+◌, ◌*◌, ◌/◌, ◌%◌, ◌^◌, ℤ, pos, is_neg, Bool, true, false, not, ◌&&◌, ◌||◌, Option, none,
  some, [], ◌∷◌, ◌++◌, Text, every, length, take, drop, ltb, ◌==◌, if◌then◌else◌,
}
use dovecot_ceph_plugin.Librados.{Librados}
use dovecot_ceph_plugin.Librados.Objects.{zeros}
use dovecot_ceph_plugin.Attributes.{MetadataModule}
use dovecot_ceph_plugin.Rebuild.{IndexCalls, RadosMails, rebuild_entry, int_max}

-- `struct rbox_index_header`; `tail` holds the flags and the unused bytes.
pub record IndexHeader : Type 0 where
  pub rebuild_count : ℕ
  pub mailbox_guid : Text
  pub tail : Text

-- The bytes of a header of 24 bytes, the lowest byte of the count first.
unfoldable pub encode_header : IndexHeader → Text
encode_header h =
    h.rebuild_count % 256
      ∷ h.rebuild_count / 256 % 256
      ∷ h.rebuild_count / 65536 % 256
      ∷ h.rebuild_count / 16777216 % 256
      ∷ h.mailbox_guid
    ++ h.tail

-- The number whose lowest byte is the first.
unfoldable pub count_of : Text → ℕ
count_of [] = 0
count_of (b ∷ bs) = b + 256 * count_of bs

-- A header of fewer bytes ends in zeros.
unfoldable pub decode_header : Text → IndexHeader
decode_header bytes =
    let hdr = take 24 (bytes ++ zeros 24) in
    record {
      rebuild_count = count_of (take 4 hdr);
      mailbox_guid = take 16 (drop 4 hdr);
      tail = drop 20 hdr;
    }

unfoldable pub guid_128_is_empty : Text → Bool
guid_128_is_empty guid = every (λ b. b == 0) guid

abbrev pub zero_header : IndexHeader
zero_header = record { rebuild_count = 0; mailbox_guid = zeros 16; tail = zeros 4 }

module _ (L : Librados) (K : IndexCalls L) (M : MetadataModule L) where
  -- `rbox_read_header`; `none` is an error.
  unfoldable pub read_header : K.Box → L.State → Option IndexHeader × L.State
  read_header box s =
      let bytes = K.get_header_ext box s in
      let hdr = decode_header bytes in
      if ltb (length bytes) 4 && (not (K.is_creating box) || not (length bytes == 0))
      then (none, s)
      else if guid_128_is_empty hdr.mailbox_guid
      then (none, s)
      else (some hdr, K.set_ext_init_data box (encode_header hdr) s)

  or_zero : Option IndexHeader → IndexHeader
  or_zero none = zero_header
  or_zero (some hdr) = hdr

  with_guid : IndexHeader → L.State → IndexHeader × L.State
  with_guid hdr s =
      if guid_128_is_empty hdr.mailbox_guid
      then (let (g, s1) = K.guid_128_generate s in (record hdr { mailbox_guid = g }, s1))
      else (hdr, s)

  -- The count wraps to 1, not to 0.
  unfoldable pub next_count : ℕ → ℕ
  next_count rebuild_count =
      if (rebuild_count + 1) % 2 ^ 32 == 0 then 1 else (rebuild_count + 1) % 2 ^ 32

  pub update_header : K.Box → L.State → L.State
  update_header box s =
      let (old, s1) = read_header box s in
      let (hdr, s2) = with_guid (or_zero old) s1 in
      K.set_ext_init_data box
        (encode_header (record hdr { rebuild_count = next_count hdr.rebuild_count })) s2

  pub set_uidvalidity : K.Box → K.Context → L.State → L.State
  set_uidvalidity box ctx s =
      let uid_validity = K.header_uid_validity ctx s in
      if uid_validity == 0
      then (let (next, s1) = K.mailbox_uidvalidity_next box s in K.update_uid_validity ctx next s1)
      else K.update_uid_validity ctx uid_validity s

  pub rebuild_objects : K.Box → K.Context → RadosMails → L.State → Option (ℤ × RadosMails × L.State)
  rebuild_objects box ctx rados_mails s =
      elim (rebuild_entry L K M box ctx false rados_mails int_max (set_uidvalidity box ctx s)) [
        | none ↦ none
        | some (ret, rados_mails', uid, s1) ↦ some (ret, rados_mails', update_header box s1)
      ]

  -- After the objects: the transaction is committed, or undone.
  finish_rebuild : K.Context → ℤ × RadosMails × L.State → ℤ × RadosMails × L.State
  finish_rebuild ctx (ret, rados_mails, s) =
      let s1 = K.rebuild_deinit ctx s in
      if is_neg ret
      then (ret, rados_mails, K.view_close ctx (K.transaction_rollback ctx s1))
      else let (ret2, s2) = K.transaction_commit ctx s1 in (ret2, rados_mails, K.view_close ctx s2)

  -- Whether another process has rebuilt the index since it was found corrupted.
  unfoldable pub is_rebuilt : Bool → ℕ → K.Box → L.State → Bool × L.State
  is_rebuilt true corrupted_rebuild_count box s = (false, s)
  is_rebuilt false corrupted_rebuild_count box s =
      let (old, s1) = read_header box s in
      (
        elim old [
          | none ↦ false
          | some hdr ↦
              not (hdr.rebuild_count == corrupted_rebuild_count) && not (hdr.rebuild_count == 0)
        ],
        s1,
      )

  -- `rbox_sync_index_rebuild`; in every case the storage's corrupted count is 0 afterwards.
  pub index_rebuild : K.Box → Bool → ℕ → RadosMails → L.State → Option (ℤ × RadosMails × L.State)
  index_rebuild box force corrupted_rebuild_count rados_mails s =
      let (rebuilt, s1) = is_rebuilt force corrupted_rebuild_count box s in
      elim rebuilt [
        | true ↦ some (pos 0, rados_mails, s1)
        | false ↦
            (let (ctx, s2) = K.rebuild_init box s1 in
              elim (rebuild_objects box ctx rados_mails s2) [
                | none ↦ none
                | some r ↦ some (finish_rebuild ctx r)
              ])
      ]
