-- ===== src/Mailbox/Indexes.antt =====
-- Creating or updating the index of a mailbox: `rbox_mailbox_create_indexes`.
pub mod Written
use dovecot_ceph_plugin.Prelude.{
  ℕ, ◌<◌, ℤ, pos, minus_one, is_neg, Bool, true, false, not, ◌&&◌, ◌||◌, Option, none, some, List,
  [], ◌∷◌, ◌++◌, Text, length, str_eq, ltb, ◌==◌, if◌then◌else◌,
}
use dovecot_ceph_plugin.Librados.{Librados}
use dovecot_ceph_plugin.Attributes.{MetadataModule}
use dovecot_ceph_plugin.Rebuild.{IndexCalls}
use dovecot_ceph_plugin.Rebuild.Header.{
  IndexHeader, encode_header, read_header, zero_header, guid_128_is_empty,
}

-- The parts of `struct mail_index_header` that are read, and the highest modseq of the view.
pub record MailHeader : Type 0 where
  pub uid_validity : ℕ
  pub next_uid : ℕ
  pub first_recent_uid : ℕ
  pub highest_modseq : ℕ

-- `struct mailbox_update`; numbers that are not given are 0, a guid that is not given is empty.
pub record MailboxUpdate : Type 0 where
  pub mailbox_guid : Text
  pub uid_validity : ℕ
  pub min_next_uid : ℕ
  pub min_first_recent_uid : ℕ
  pub min_highest_modseq : ℕ

-- What is written in the transaction of the index.
pub data HeaderWrite : Type 0 where
  write_uid_validity write_next_uid write_first_recent_uid : ℕ → HeaderWrite
  -- the modseqs are enabled first
  write_highest_modseq : ℕ → HeaderWrite
  write_pop3_max_uid : ℕ → HeaderWrite
  resize_header_ext : HeaderWrite
  write_header_ext : Text → HeaderWrite

-- What the function asks of Dovecot besides.
pub record CreateCalls (L : Librados) : Type 0 where
  pub get_header : L.State → MailHeader
  pub inbox_user : Bool
  pub transaction_begin : L.State → L.State
  -- the transaction that the function began is committed with what was written
  pub transaction_commit : List HeaderWrite → L.State → ℤ × L.State
  pub set_index_error : L.State → L.State

abbrev pub write_if : Bool → HeaderWrite → List HeaderWrite
write_if true w = w ∷ []
write_if false w = []

-- The writes that an update asks for.
unfoldable pub update_writes : MailHeader → Option MailboxUpdate → List HeaderWrite
update_writes hdr none = []
update_writes hdr (some u) =
    write_if (ltb hdr.next_uid u.min_next_uid) (write_next_uid u.min_next_uid)
    ++ (write_if
          (not (u.min_first_recent_uid == 0) && ltb hdr.first_recent_uid u.min_first_recent_uid)
          (write_first_recent_uid u.min_first_recent_uid)
        ++ write_if (not (u.min_highest_modseq == 0) && ltb hdr.highest_modseq u.min_highest_modseq)
            (write_highest_modseq u.min_highest_modseq))

-- The guid that an update gives, if any.
abbrev pub given_guid : Option MailboxUpdate → Option Text
given_guid none = none
given_guid (some u) = if guid_128_is_empty u.mailbox_guid then none else some u.mailbox_guid

module _ (L : Librados) (K : IndexCalls L) (M : MetadataModule L) (C : CreateCalls L) where
  choose_guid : Option Text → IndexHeader → L.State → Text × L.State
  choose_guid (some g) hdr s = (g, s)
  choose_guid none hdr s =
      let (g, s1) = K.guid_128_generate s in
      if guid_128_is_empty hdr.mailbox_guid then (g, s1) else (hdr.mailbox_guid, s)

  -- `rbox_update_header`: what is written, and the guid that the mailbox has from then on.
  unfoldable pub update_header :
      K.Box → Option MailboxUpdate → L.State → List HeaderWrite × Text × L.State
  unfolding choose_guid
  update_header box update s =
      let size = length (K.get_header_ext box s) in
      let (old, s1) = read_header L K M box s in
      let hdr : IndexHeader = elim old [ none ↦ zero_header | some h ↦ h ] in
      let need_resize : Bool = elim old [ none ↦ true | some h ↦ ltb size 24 ] in
      let (g, s2) = choose_guid (given_guid update) hdr s1 in
      let new_hdr : IndexHeader = record hdr { mailbox_guid = g } in
      (
        write_if need_resize resize_header_ext
            ++ write_if (not (str_eq (encode_header hdr) (encode_header new_hdr)))
                (write_header_ext (encode_header new_hdr)),
        g,
        s2,
      )

  -- A UIDVALIDITY that is given, the one that there is, or the next one.
  unfoldable pub choose_uid_validity : K.Box → ℕ → Option MailboxUpdate → L.State → ℕ × L.State
  choose_uid_validity box old update s =
      let given : ℕ = elim update [ none ↦ 0 | some u ↦ u.uid_validity ] in
      if not (given == 0)
      then (given, s)
      else if not (old == 0)
      then (old, s)
      else K.mailbox_uidvalidity_next box s

  unfoldable pub header_writes :
      K.Box → Option MailboxUpdate → L.State → List HeaderWrite × Text × L.State
  header_writes box update s =
      let hdr = C.get_header s in
      let (uid_validity, s1) = choose_uid_validity box hdr.uid_validity update s in
      let (ws, g, s2) = update_header box update s1 in
      (
        write_if (not (hdr.uid_validity == uid_validity)) (write_uid_validity uid_validity)
            ++ (update_writes hdr update
                ++ (write_if (C.inbox_user && K.is_creating box) (write_pop3_max_uid 0) ++ ws)),
        g,
        s2,
      )

  -- Into the transaction that is given, whose writes are the argument, or into one that begins and ends
  -- here. The result, the writes of the given transaction, and the guid.
  unfoldable pub mailbox_create_indexes :
      K.Box
      → Option MailboxUpdate
      → Option (List HeaderWrite)
      → L.State
      → ℤ × Option (List HeaderWrite) × Text × L.State
  mailbox_create_indexes box update (some trans) s =
      let (ws, g, s1) = header_writes box update s in (pos 0, some (trans ++ ws), g, s1)
  mailbox_create_indexes box update none s =
      let (ws, g, s1) = header_writes box update (C.transaction_begin s) in
      let (ret, s2) = C.transaction_commit ws s1 in
      if is_neg ret then (minus_one, none, g, C.set_index_error s2) else (pos 0, none, g, s2)

  -- `rbox_set_mailbox_corrupted`: the number that the storage's `corrupted_rebuild_count` is set to.
  unfoldable pub set_mailbox_corrupted : K.Box → L.State → ℕ × L.State
  set_mailbox_corrupted box s =
      let (old, s1) = read_header L K M box s in
      let count : ℕ = elim old [ none ↦ 0 | some hdr ↦ hdr.rebuild_count ] in
      ((if count == 0 then 1 else count), s1)
