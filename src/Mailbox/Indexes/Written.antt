-- ===== src/Mailbox/Indexes/Written.antt =====
-- What the index header is after an update.
use dovecot_ceph_plugin.Prelude.{
  ℕ, ◌≡◌, refl, ap, ◌∙◌, Bool, true, false, not, ◌&&◌, Option, none, some, List, [], ◌∷◌, ◌++◌, ltb,
  ◌==◌, ==_iff, arith, if◌then◌else◌,
}
use dovecot_ceph_plugin.Librados.{Librados}
use dovecot_ceph_plugin.Attributes.{MetadataModule}
use dovecot_ceph_plugin.Rebuild.{IndexCalls}
use dovecot_ceph_plugin.Mailbox.Indexes.{
  MailHeader, MailboxUpdate, HeaderWrite, CreateCalls, write_uid_validity, write_next_uid,
  write_first_recent_uid, write_highest_modseq, write_pop3_max_uid, resize_header_ext,
  write_header_ext, write_if, update_writes, update_header, choose_uid_validity, header_writes,
}

-- One write in the header.
abbrev pub apply_write : HeaderWrite → MailHeader → MailHeader
apply_write (write_uid_validity n) hdr = record hdr { uid_validity = n }
apply_write (write_next_uid n) hdr = record hdr { next_uid = n }
apply_write (write_first_recent_uid n) hdr = record hdr { first_recent_uid = n }
apply_write (write_highest_modseq n) hdr = record hdr { highest_modseq = n }
apply_write (write_pop3_max_uid n) hdr = hdr
apply_write resize_header_ext hdr = hdr
apply_write (write_header_ext bytes) hdr = hdr

unfoldable pub apply_writes : List HeaderWrite → MailHeader → MailHeader
apply_writes [] hdr = hdr
apply_writes (x ∷ xs) hdr = apply_writes xs (apply_write x hdr)

apply_writes-append :
    (xs ys : List HeaderWrite) (hdr : MailHeader)
    → apply_writes (xs ++ ys) hdr ≡ apply_writes ys (apply_writes xs hdr)
unfolding apply_writes
apply_writes-append [] ys hdr = refl
apply_writes-append (x ∷ xs) ys hdr = apply_writes-append xs ys (apply_write x hdr)

-- A number is raised to the one that is asked for, never lowered.
abbrev pub raised : ℕ → ℕ → ℕ
raised old least = if ltb old least then least else old

abbrev pub raised_header : Option MailboxUpdate → ℕ → MailHeader → MailHeader
raised_header none uid_validity hdr = record hdr { uid_validity = uid_validity }
raised_header (some u) uid_validity hdr = record {
  uid_validity = uid_validity;
  next_uid = raised hdr.next_uid u.min_next_uid;
  first_recent_uid = raised hdr.first_recent_uid u.min_first_recent_uid;
  highest_modseq = raised hdr.highest_modseq u.min_highest_modseq;
}

apply_if :
    (b : Bool) (x : HeaderWrite) (hdr : MailHeader)
    → apply_writes (write_if b x) hdr ≡ (if b then apply_write x hdr else hdr)
unfolding apply_writes
apply_if true x hdr = refl
apply_if false x hdr = refl

apply_writes-update_writes :
    (hdr : MailHeader) (uid_validity : ℕ) (update : Option MailboxUpdate)
    → apply_writes (update_writes hdr update) (record hdr { uid_validity = uid_validity })
      ≡ raised_header update uid_validity hdr
unfolding update_writes apply_writes
apply_writes-update_writes hdr uid_validity none = refl
apply_writes-update_writes hdr uid_validity (some u) = ground arith

module _ (L : Librados) (K : IndexCalls L) (M : MetadataModule L) (C : CreateCalls L) where
  apply_writes-update_header :
      (box : K.Box) (update : Option MailboxUpdate) (s : L.State) (hdr : MailHeader)
      → apply_writes (update_header L K M C box update s).0 hdr ≡ hdr
  unfolding update_header apply_writes
  apply_writes-update_header box update s hdr = ground arith

  set_first :
      (hdr : MailHeader) (v : ℕ)
      → (if not (hdr.uid_validity == v) then apply_write (write_uid_validity v) hdr else hdr)
        ≡ record hdr { uid_validity = v }
  set_first hdr v = ground (arith, ==_iff hdr.uid_validity v)

  set_pop3 :
      (b : Bool) (hdr : MailHeader) → apply_writes (write_if b (write_pop3_max_uid 0)) hdr ≡ hdr
  unfolding apply_writes
  set_pop3 true hdr = refl
  set_pop3 false hdr = refl

  -- The four groups of writes, one after another.
  apply_groups :
      (hdr : MailHeader) (v : ℕ) (update : Option MailboxUpdate) (b : Bool) (ws : List HeaderWrite)
      → ((h : MailHeader) → apply_writes ws h ≡ h)
      → apply_writes
          (write_if (not (hdr.uid_validity == v)) (write_uid_validity v)
            ++ (update_writes hdr update ++ (write_if b (write_pop3_max_uid 0) ++ ws)))
          hdr
        ≡ raised_header update v hdr
  apply_groups hdr v update b ws keeps =
      apply_writes-append (write_if (not (hdr.uid_validity == v)) (write_uid_validity v)) _ hdr
      ∙ (ap (apply_writes (update_writes hdr update ++ (write_if b (write_pop3_max_uid 0) ++ ws)))
            (apply_if (not (hdr.uid_validity == v)) (write_uid_validity v) hdr ∙ set_first hdr v)
          ∙ (apply_writes-append (update_writes hdr update) _ _
              ∙ (ap (apply_writes (write_if b (write_pop3_max_uid 0) ++ ws))
                    (apply_writes-update_writes hdr v update)
                  ∙ (apply_writes-append (write_if b (write_pop3_max_uid 0)) ws _
                      ∙ (keeps _ ∙ set_pop3 b _)))))

  -- The number that an update gives, 0 where it gives none.
  abbrev pub given_uid_validity : Option MailboxUpdate → ℕ
  given_uid_validity none = 0
  given_uid_validity (some u) = u.uid_validity

  chosen :
      (box : K.Box) (old : ℕ) (update : Option MailboxUpdate) (s : L.State)
      → (choose_uid_validity L K M C box old update s).0 ≡ (
          if not (given_uid_validity update == 0)
          then given_uid_validity update
          else if not (old == 0)
          then old
          else (K.mailbox_uidvalidity_next box s).0)
  unfolding choose_uid_validity
  chosen box old none s = ground arith
  chosen box old (some u) s = ground arith

  -- What creating or updating an index writes, applied to the header that there was: the UIDVALIDITY is the
  -- one that is given, else the one that there was, else the next one; the next uid, the first recent
  -- uid and the highest modseq are raised to what is asked for and never lowered; where no update is
  -- asked for they stay.
  pub header_writes-raised_header :
      (box : K.Box) (update : Option MailboxUpdate) (s : L.State)
      → apply_writes (header_writes L K M C box update s).0 (C.get_header s)
        ≡ raised_header update
            (if not (given_uid_validity update == 0)
              then given_uid_validity update
              else if not ((C.get_header s).uid_validity == 0)
              then (C.get_header s).uid_validity
              else (K.mailbox_uidvalidity_next box s).0)
            (C.get_header s)
  unfolding header_writes
  header_writes-raised_header box update s =
      let hdr = C.get_header s in
      let (v, s1) = choose_uid_validity L K M C box hdr.uid_validity update s in
      apply_groups hdr v update (C.inbox_user && K.is_creating box) _
        (apply_writes-update_header box update s1)
      ∙ ap (λ n. raised_header update n hdr) (chosen box hdr.uid_validity update s)
