-- ===== src/Save/Begin.antt =====
-- Beginning to save a mail: `rbox_save_begin`, and what adds the mail to the index.
use dovecot_ceph_plugin.Prelude.{
  ℕ, suc, ◌≡◌, refl, ◌-◌, ◌*◌, ◌/◌, ◌%◌, ℤ, pos, minus_one, is_neg, int_eq, Bool, true, false, not,
  Option, none, some, [], ◌∷◌, ◌++◌, Text, c_str, free_of, length, ◌==◌, if◌then◌else◌,
}
use dovecot_ceph_plugin.Librados.{Librados}
use dovecot_ceph_plugin.Storage.{Storage, Mail}
use dovecot_ceph_plugin.Util.Replace.{find_and_replace}
use dovecot_ceph_plugin.Util.Replace.Removal.{without, find_and_replace_removes}
use dovecot_ceph_plugin.Save.Finish.{SaveContext}

-- What Dovecot does with identifiers, indexes and streams, and the opening of the connection.
pub record BeginCalls (L : Librados) : Type 0 where
  pub guid_128_generate : L.State → Text × L.State
  pub guid_128_to_string : Text → Text
  pub guid_128_from_string : Text → Text
  pub mail_generate_guid_128_hash : Text → Text
  pub mail_index_append : ℕ → L.State → ℕ × L.State
  pub update_flags : ℕ → ℕ → L.State → L.State
  pub update_keywords : ℕ → L.State → L.State
  pub update_modseq : ℕ → ℕ → L.State → L.State
  -- the guid and the oid of a record
  pub update_ext : ℕ → Text → Text → L.State → L.State
  pub mail_alloc : L.State → L.State
  pub set_seq_saving : ℕ → L.State → L.State
  pub init_output_stream : L.State → L.State
  pub cache_parse_init : L.State → L.State
  pub ioloop_time : L.State → ℤ
  pub open_rados_connection : Storage L → L.State → ℤ × Storage L × L.State
  pub save_continue : L.State → ℤ × L.State

-- `struct mail_save_data`, as far as it is used here. `guid` is a C string, `none` the null pointer.
pub record GivenData : Type 0 where
  pub guid : Option Text
  pub uid : ℕ
  pub flags : ℕ
  pub has_keywords : Bool
  pub min_modseq : ℕ
  pub received_date : ℤ

-- The mail object that is set up, with the identifiers of its index record.
pub record NewMail : Type 0 where
  pub mail : Mail
  pub mail_guid : Text
  pub mail_oid : Text
  pub deprecated_uid : Bool

unfoldable pub empty_mail : Text → Mail
empty_mail oid = record {
  oid = oid;
  mail_size = minus_one;
  mail_buffer = [];
  metadata = [];
  extended_metadata = [];
  save_date = minus_one;
}

-- `flags & ~MAIL_RECENT`.
without_recent : ℕ → ℕ
without_recent flags = flags - flags / 32 % 2 * 32

-- The constructor of the context, and what `rbox_save_alloc` does for the next mail of a transaction.
pub new_context : SaveContext
new_context = record {
  mail_count = 0;
  seq = 0;
  rados_mails = [];
  has_transaction = true;
  has_sync_ctx = false;
  dest_mail = false;
  dest_mail_allocated = false;
  copying = false;
  moving = false;
  failed = true;
  finished = true;
}

pub save_alloc : Option SaveContext → SaveContext
save_alloc none = new_context
save_alloc (some ctx) = record ctx { failed = false; finished = false }

module _ (L : Librados) (B : BeginCalls L) where
  -- The guid of the mail: the hash of the one that is given, without its hyphens, or a new one.
  unfoldable pub guid_of_data : Option Text → L.State → Option (Text × Bool × L.State)
  guid_of_data none s = let (g, s1) = B.guid_128_generate s in some (g, false, s1)
  guid_of_data (some given) s =
      let str = c_str given in
      elim (find_and_replace (suc (length str)) (b'-' ∷ []) [] str 0) [
        | none ↦ none
        | some hex ↦ some (B.mail_generate_guid_128_hash hex, not (free_of b'-' str), s)
      ]

  unfoldable pub setup_mail_object : GivenData → L.State → Option (NewMail × L.State)
  setup_mail_object d s =
      let (oid, s1) = B.guid_128_generate s in
      elim (guid_of_data d.guid s1) [
        | none ↦ none
        | some (g, deprecated, s2) ↦ some (
          record {
            mail = empty_mail (B.guid_128_to_string oid);
            mail_guid = g;
            mail_oid = oid;
            deprecated_uid = deprecated;
          },
          s2,
        )
      ]

  unfoldable pub index_append : GivenData → SaveContext → L.State → SaveContext × L.State
  unfolding without_recent
  index_append d ctx s =
      let (seq, s1) = B.mail_index_append d.uid s in
      let s2 = B.update_flags seq (without_recent d.flags) s1 in
      let s3 = if d.has_keywords then B.update_keywords seq s2 else s2 in
      let s4 = if d.min_modseq == 0 then s3 else B.update_modseq seq d.min_modseq s3 in
      (record ctx { seq = seq }, s4)

  unfoldable pub add_to_index : GivenData → NewMail → SaveContext → L.State → SaveContext × L.State
  add_to_index d m ctx s =
      let (ctx1, s1) = index_append d ctx s in
      (
        record ctx1 { rados_mails = ctx1.rados_mails ++ m.mail ∷ [] },
        B.update_ext ctx1.seq m.mail_guid m.mail_oid s1,
      )

  -- The record of a mail that is moved: its object keeps its name.
  pub move_index :
      GivenData → Text → SaveContext → L.State → Option (NewMail × SaveContext × L.State)
  move_index d src_oid ctx s =
      let (ctx1, s1) = index_append d ctx s in
      let mail_oid = B.guid_128_from_string (c_str src_oid) in
      let mail = empty_mail (B.guid_128_to_string mail_oid) in
      elim (guid_of_data d.guid s1) [
        | none ↦ none
        | some (g, deprecated, s2) ↦
            (let s3 = B.update_ext ctx1.seq g mail_oid s2 in
              some (
                record {
                  mail = mail;
                  mail_guid = g;
                  mail_oid = mail_oid;
                  deprecated_uid = deprecated;
                },
                record ctx1 { rados_mails = ctx1.rados_mails ++ mail ∷ [] },
                if ctx1.dest_mail then B.set_seq_saving ctx1.seq s3 else s3,
              ))
      ]

  -- A mail that the save is to fill is allocated where there is none.
  with_dest_mail : SaveContext → L.State → SaveContext × L.State
  with_dest_mail ctx s = if ctx.dest_mail then (record ctx { failed = false }, s) else (
    record ctx { failed = false; dest_mail = true; dest_mail_allocated = true },
    B.mail_alloc s,
  )

  -- On the primary storage, once the connection is open.
  begin_opened : GivenData → NewMail → SaveContext → L.State → GivenData × SaveContext × L.State
  begin_opened d m ctx s =
      let (ctx1, s1) = add_to_index d m ctx s in
      let s2 = B.cache_parse_init (B.set_seq_saving ctx1.seq s1) in
      (
        if int_eq d.received_date minus_one
            then record d { received_date = B.ioloop_time s2 }
            else d,
        ctx1,
        s2,
      )

  -- The result is 0 also where the connection cannot be opened, which the context remembers.
  pub save_begin :
      GivenData
      → Storage L
      → SaveContext
      → L.State
      → Option (ℤ × GivenData × NewMail × Storage L × SaveContext × L.State)
  save_begin d st ctx s =
      let (ctx1, s1) = with_dest_mail ctx s in
      elim (setup_mail_object d s1) [
        | none ↦ none
        | some (m, s2) ↦
            (let (ret, st1, s3) = B.open_rados_connection st (B.init_output_stream s2) in
              if is_neg ret
              then some (pos 0, d, m, st1, record ctx1 { failed = true }, s3)
              else let (d1, ctx2, s4) = begin_opened d m ctx1 s3 in
                some (pos 0, d1, m, st1, ctx2, s4))
      ]

  pub save_continue : SaveContext → L.State → ℤ × SaveContext × L.State
  save_continue ctx s =
      if ctx.failed
      then (minus_one, ctx, s)
      else let (ret, s1) = B.save_continue s in
        if is_neg ret then (minus_one, record ctx { failed = true }, s1) else (pos 0, ctx, s1)

  -- The identifier of a mail whose guid is given is always made: it is the hash of the guid without its
  -- hyphens.
  guid_of_data_given :
      (given : Text) (s : L.State)
      → guid_of_data (some given) s
        ≡ some (
          B.mail_generate_guid_128_hash (without b'-' (c_str given)),
          not (free_of b'-' (c_str given)),
          s,
        )
  unfolding guid_of_data
  guid_of_data_given given s = rw (guid_of_data, find_and_replace_removes b'-' (c_str given)) refl
