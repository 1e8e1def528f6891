-- ===== src/Sync/Flags.antt =====
-- Writing a change of flags or keywords to the mails' objects, and moving mails to the other pool.
pub mod Stored
use dovecot_ceph_plugin.Prelude.{
  ℕ, zero, suc, ◌-◌, ◌==◌, ℤ, pos, minus_one, is_neg, Bool, true, false, Option, none, some, List,
  [], Text, c_str, decimal, get_elem?, if◌then◌else◌,
}
use Prim.Native.Nat.{bit_and, bit_or}
use dovecot_ceph_plugin.Types.{oldv1_flags}
use dovecot_ceph_plugin.Librados.{Librados}
use dovecot_ceph_plugin.Metadata.{convert, from_key_value}
use dovecot_ceph_plugin.Util.{get_key_metadata, string_to_flags, flags_to_string}
use dovecot_ceph_plugin.Attributes.{MailObject, MetadataModule, new_mail_object}
use dovecot_ceph_plugin.Alt as Alt
use dovecot_ceph_plugin.Mailbox.{Pools}
use dovecot_ceph_plugin.Sync.{SyncCalls, rounds, is_in_alt}

-- How a round of a loop ends: the next one follows, the loop is left, or the function returns -1.
pub data Round (L : Librados) : Type 0 where
  next leave : ℤ → Pools L → L.State → Round L
  fail : Pools L → L.State → Round L

-- `flags |= add_flags` and `flags &= ~remove_flags` on bytes.
unfoldable pub new_flags : ℕ → ℕ → ℕ → ℕ
new_flags add_flags remove_flags flags =
    let added = if add_flags == 0 then flags else bit_or flags add_flags in
    if remove_flags == 0 then added else bit_and added (255 - remove_flags)

module _ (L : Librados) (K : SyncCalls L) (M : L.IoCtx → MetadataModule L) where
  -- The connection to the pool of a mail, over which its metadata are read and written.
  unfoldable pub use_pool : Bool → Pools L → L.State → ℤ × Pools L × L.State
  use_pool alt_storage p s =
      let (ret, p1, s1) = K.open_rados_connection alt_storage p s in
      (
        ret,
        if is_neg ret
            then p1
            else record p1 { metadata_io_ctx = if alt_storage then p1.alt.io_ctx else p1.s.io_ctx },
        s1,
      )

  unfoldable pub reset_pool : Pools L → Pools L
  reset_pool p = record p { metadata_io_ctx = p.s.io_ctx }

  -- The flags of one object, from the mail that was loaded on; `none` is the null pointer that is made
  -- a string, which ends the process.
  unfoldable pub write_flags : ℕ → ℕ → MailObject → L.IoCtx → ℤ → L.State → Option (ℤ × L.State)
  write_flags add_flags remove_flags mail c ret s =
      elim (get_key_metadata oldv1_flags mail.metadata) [
        | none ↦ none
        | some flags_metadata ↦ elim (string_to_flags (c_str flags_metadata)) [
          | none ↦ some (ret, s)
          | some mail_flags ↦
              (let update =
                  convert oldv1_flags
                    (flags_to_string (new_flags add_flags remove_flags mail_flags) []) in
                let (written, changed, s1) = (M c).set_metadata update mail s in some (written, s1))
        ]
      ]

  unfoldable pub change_flags : ℕ → ℕ → Text → L.IoCtx → ℤ → L.State → Option (ℤ × L.State)
  change_flags add_flags remove_flags oid c ret s =
      elim ((M c).load_metadata (some (new_mail_object oid)) s) [
        | none ↦ none
        | some (err, none, s1) ↦ some (ret, s1)
        | some (err, some mail, s1) ↦
            if is_neg err then some (ret, s1) else write_flags add_flags remove_flags mail c ret s1
      ]

  after_change : Pools L → Option (ℤ × L.State) → Option (Round L)
  after_change p none = none
  after_change p (some (ret, s)) = some (next ret p s)

  update_flags_one : ℕ → ℕ → ℕ → ℤ → Pools L → L.State → Option (Round L)
  update_flags_one add_flags remove_flags seq ret p s = elim (K.lookup_flags seq s) [
    | none ↦ some (next ret p s)
    | some mail_flags ↦
        (let (opened, p1, s1) = use_pool (is_in_alt L K mail_flags) p s in
          if is_neg opened then some (fail p1 s1) else elim (K.lookup_ext seq s1) [
            | none ↦ some (next ret p1 s1)
            | some oid ↦ after_change p1 (
                change_flags add_flags remove_flags (K.guid_128_to_string oid) p1.metadata_io_ctx
                  ret s1)
          ])
  ]

  -- A keyword that is added is stored by its place; a place behind the list is read out of bounds.
  write_keyword : Bool → ℕ → Text → L.IoCtx → ℤ → L.State → Option (Bool × ℤ × L.State)
  write_keyword true keyword_idx oid c ret s =
      let (removed, s1) = (M c).remove_keyword_metadata oid (decimal keyword_idx) s in
      some (is_neg removed, removed, s1)
  write_keyword false keyword_idx oid c ret s = elim (K.get_keywords s) [
    | none ↦ some (false, ret, s)
    | some keywords ↦ elim (get_elem? keywords keyword_idx) [
      | none ↦ none
      | some keyword ↦
          (let m = from_key_value (decimal keyword_idx) keyword in
            let (updated, s1) = (M c).update_keyword_metadata oid (some m) s in
            some (is_neg updated, updated, s1))
    ]
  ]

  after_keyword : Pools L → Option (Bool × ℤ × L.State) → Option (Round L)
  after_keyword p none = none
  after_keyword p (some (true, ret, s)) = some (leave ret p s)
  after_keyword p (some (false, ret, s)) = some (next ret p s)

  update_keyword_one : Bool → ℕ → ℕ → ℤ → Pools L → L.State → Option (Round L)
  update_keyword_one remove keyword_idx seq ret p s = elim (K.lookup_flags seq s) [
    | none ↦ some (next ret p s)
    | some mail_flags ↦
        (let (opened, p1, s1) = use_pool (is_in_alt L K mail_flags) p s in
          if is_neg opened then some (fail p1 s1) else elim (K.lookup_ext seq s1) [
            | none ↦ some (next ret p1 s1)
            | some oid ↦ after_keyword p1 (
                write_keyword remove keyword_idx (K.guid_128_to_string oid) p1.metadata_io_ctx ret
                  s1)
          ])
  ]

  -- The loop over the mails, with `n` rounds to go. Where the connection fails, the metadata storage
  -- keeps the pool of the mail before.
  each_mail :
      (ℕ → ℤ → Pools L → L.State → Option (Round L))
      → ℕ
      → ℕ
      → ℤ
      → Pools L
      → L.State
      → Option (ℤ × Pools L × L.State)
  each_mail one zero seq ret p s = some (ret, reset_pool p, s)
  each_mail one (suc n) seq ret p s = elim (one seq ret p s) [
    | none ↦ none
    | some (fail p1 s1) ↦ some (minus_one, p1, s1)
    | some (leave ret1 p1 s1) ↦ some (ret1, reset_pool p1, s1)
    | some (next ret1 p1 s1) ↦ each_mail one n (suc seq) ret1 p1 s1
  ]

  unfoldable pub update_flags : ℕ → ℕ → ℕ → ℕ → Pools L → L.State → Option (ℤ × Pools L × L.State)
  unfolding each_mail update_flags_one after_change
  update_flags seq1 seq2 add_flags remove_flags p s =
      each_mail (update_flags_one add_flags remove_flags) (rounds seq1 seq2) seq1 (pos 0) p s

  unfoldable pub update_extended_metadata :
      ℕ → ℕ → ℕ → Bool → Pools L → L.State → Option (ℤ × Pools L × L.State)
  unfolding each_mail update_keyword_one after_keyword write_keyword
  update_extended_metadata seq1 seq2 keyword_idx remove p s =
      each_mail (update_keyword_one remove keyword_idx) (rounds seq1 seq2) seq1 (pos 0) p s
