-- ===== src/Rebuild/Load/Grouping.antt =====
-- The mails of a mailbox are those that were loaded for it.
use dovecot_ceph_plugin.Prelude.{
  ℤ, is_neg, Bool, true, not, ◌||◌, ◌≡◌, refl, sym, Option, none, some, List, [], ◌∷◌, ◌++◌,
  append_assoc, append-nil, Text, TextSet, c_str, str_eq, lookup, Bool-cases, inl, inr, str_eq_iff,
  keep, arith, if◌then◌else◌,
}
use dovecot_ceph_plugin.Librados.{Librados}
use dovecot_ceph_plugin.Util.{validate_metadata}
use dovecot_ceph_plugin.Util.Validate.{validate_metadata_iff}
use dovecot_ceph_plugin.Attributes.{MailObject, MetadataModule, new_mail_object}
use dovecot_ceph_plugin.Rebuild.{RadosMails}
use dovecot_ceph_plugin.Rebuild.Load.{
  guid_of, add_mail, add_loaded, load_from, load_rados_mail_metadata, valid_mail, valid_mails,
  is_in, listed, listed-add_mail,
}

keep-append {ℓ} :
    {A : Type ℓ} (p : A → Bool) (xs ys : List A) → keep p (xs ++ ys) ≡ keep p xs ++ keep p ys
keep-append p [] ys = refl
keep-append p (x ∷ xs) ys = ground (arith, keep-append p xs ys)

guid_of_valid :
    (mail : MailObject)
    → validate_metadata mail.metadata ≡ true
    → (g : Text) × (guid_of mail ≡ some g)
unfolding guid_of
guid_of_valid mail h =
    let (v, e) = ((validate_metadata_iff mail.metadata).0 h).mailbox in
    (c_str v, rw (guid_of, e) refl)

module _ (L : Librados) (M : MetadataModule L) where
  -- The mails of each mailbox: those that were there, and those of some that were loaded.
  abbrev Extends : RadosMails → List MailObject → RadosMails → Type 0
  Extends m mails r =
      (g : Text) → listed L M (lookup g r) ≡ listed L M (lookup g m) ++ keep (is_in L M g) mails

  keep_one :
      (h g : Text) (mail : MailObject)
      → guid_of mail ≡ some h
      → keep (is_in L M g) (mail ∷ []) ≡ (if str_eq h g then mail ∷ [] else [])
  unfolding is_in
  keep_one h g mail e = rw (is_in, e) refl

  add_mail-Extends :
      (h : Text) (mail : MailObject) (m : RadosMails)
      → guid_of mail ≡ some h
      → Extends m (mail ∷ []) (add_mail h mail m)
  add_mail-Extends h mail m e g =
      rw (listed-add_mail L M h g mail m, keep_one h g mail e)
        (elim (Bool-cases (str_eq h g)) [
          | inl q ↦ rw (q, (str_eq_iff h g).0 q) refl
          | inr q ↦ rw (q, append-nil _) refl
        ])

  add_loaded-Extends :
      (ret : ℤ) (mail : Option MailObject) (m : RadosMails)
      → (r : RadosMails) × (add_loaded L M ret mail m ≡ some r)
        × Extends m (valid_mail L M ret mail) r
  unfolding add_loaded valid_mail
  add_loaded-Extends ret none m = (m, refl, λ g. sym (append-nil _))
  add_loaded-Extends ret (some mail) m =
      elim (Bool-cases (is_neg ret || not (validate_metadata mail.metadata))) [
        | inl q ↦ (m, rw q refl, λ g. rw (q, append-nil _) refl)
        | inr q ↦
            (let (h, e) = guid_of_valid mail (ground arith) in
              (add_mail h mail m, rw (q, e) refl, rw q (add_mail-Extends h mail m e)))
      ]

  Extends-trans :
      (m k r : RadosMails) (xs ys : List MailObject)
      → Extends m xs k
      → Extends k ys r
      → Extends m (xs ++ ys) r
  Extends-trans m k r xs ys p q g =
      rw (q g, p g, keep-append (is_in L M g) xs ys)
        (append_assoc (listed L M (lookup g m)) (keep (is_in L M g) xs) (keep (is_in L M g) ys))

  -- A module whose loads end.
  abbrev pub Loads : Type 0
  Loads =
      (mail : Option MailObject) (s : L.State)
      → (ret : ℤ) × (mail' : Option MailObject) × (s' : L.State) × (M.load_metadata mail s
          ≡ some (ret, mail', s'))

  load_from-Extends :
      (h : Loads) (oids : TextSet) (m : RadosMails) (s : L.State)
      → (r : RadosMails) × (s' : L.State) × (load_from L M oids m s ≡ some (r, s'))
        × Extends m (valid_mails L M oids s) r
  unfolding load_from valid_mails
  load_from-Extends h [] m s = (m, s, refl, λ g. sym (append-nil _))
  load_from-Extends h (oid ∷ oids) m s =
      let (ret, mail, s1, e) = h (some (new_mail_object oid)) s in
      let (k, f, p) = add_loaded-Extends ret mail m in
      let (r, s', f', q) = load_from-Extends h oids k s1 in
      let step : valid_mails L M (oid ∷ oids) s
          ≡ valid_mail L M ret mail ++ valid_mails L M oids s1 =
        rw (valid_mails, e) refl in
      (r, s', rw (load_from, e, f) f', rw step (Extends-trans m k r _ _ p q))

  -- With a module whose loads end, loading the metadata ends, and the mails that it lists for a mailbox
  -- are the valid mails of this mailbox, each once, in the order of their names.
  pub load_rados_mail_metadata_lem :
      (h : Loads) (oids : TextSet) (s : L.State)
      → (r : RadosMails) × (s' : L.State) × (load_rados_mail_metadata L M oids s ≡ some (r, s'))
        × ((g : Text) → listed L M (lookup g r) ≡ keep (is_in L M g) (valid_mails L M oids s))
  unfolding load_rados_mail_metadata lookup
  load_rados_mail_metadata_lem h oids s = load_from-Extends h oids [] s
