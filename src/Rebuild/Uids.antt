-- ===== src/Rebuild/Uids.antt =====
-- The uids that the mails of a mailbox get, and the mails that get none.
use mathlib.Core.Path.{subst}
use dovecot_ceph_plugin.Prelude.{
  ℕ, ◌+◌, ◌%◌, ◌^◌, ◌<◌, ℤ, is_neg, Bool, true, false, ◌≡◌, refl, sym, ap, Option, none, some, List,
  [], ◌∷◌, map, All, Bool-cases, inl, inr, arith, if◌then◌else◌,
}
use dovecot_ceph_plugin.Librados.{Librados}
use dovecot_ceph_plugin.Attributes.{MailObject, MetadataModule}
use dovecot_ceph_plugin.Rebuild.{IndexCalls, add_object, add_objects, before}

-- The mails that are not restored yet.
unfoldable pub unrestored : List MailObject → ℕ
unrestored [] = 0
unrestored (mail ∷ mails) = (if mail.restored then 0 else 1) + unrestored mails

abbrev pub IsRestored : MailObject → Type 0
IsRestored mail = mail.restored ≡ true

-- One uid more, with what follows it.
one_more_mod :
    (n m k : ℕ) → m ≡ ((n + 1) % 4294967296 + k) % 4294967296 → m ≡ (n + (1 + k)) % 4294967296
one_more_mod n m k h = omega arith

module _ (L : Librados) (K : IndexCalls L) (M : MetadataModule L) where
  -- Where mails were added without an error: every one is restored, the same mails are there in the same
  -- order, and the next uid has moved on by the number of those that were not restored.
  abbrev pub Restores : ℕ → List MailObject → Option (ℤ × List MailObject × ℕ × L.State) → Type 0
  Restores uid mails none = Unit
  Restores uid mails (some (ret, mails', uid', s)) =
      is_neg ret ≡ false
      → All IsRestored mails'
        × (map (λ mail. mail.oid) mails' ≡ map (λ mail. mail.oid) mails)
        × (uid' ≡ (uid + unrestored mails) % 4294967296)

  -- A mail that is passed over.
  kept :
      (mail : MailObject) (mails : List MailObject) (uid : ℕ)
      (o : Option (ℤ × List MailObject × ℕ × L.State))
      → mail.restored ≡ true
      → Restores uid mails o
      → Restores uid (mail ∷ mails) (before L K M mail o)
  unfolding before unrestored
  kept mail mails uid none e h = tt
  kept mail mails uid (some (ret, mails', uid', s)) e h =
      λ ok. let (r, m, u) = h ok in ((e, r), ap (◌∷◌ mail.oid) m, ground arith)

  -- A mail that was added.
  now_restored :
      (mail : MailObject) (mails : List MailObject) (uid : ℕ)
      (o : Option (ℤ × List MailObject × ℕ × L.State))
      → mail.restored ≡ false
      → Restores ((uid + 1) % 4294967296) mails o
      → Restores uid
          (mail ∷ mails)
          (before L K M (record mail { restored = true; index_ref = true }) o)
  unfolding before unrestored
  now_restored mail mails uid none e h = tt
  now_restored mail mails uid (some (ret, mails', uid', s)) e h = λ ok.
      let (r, m, u) = h ok in
      ((refl, r), ap (◌∷◌ mail.oid) m, rw e (one_more_mod uid uid' (unrestored mails) u))

  -- What the loop does with a mail that is not restored, by what adding it gives.
  after :
      K.Context
      → Bool
      → MailObject
      → List MailObject
      → ℕ
      → Option (ℤ × L.State)
      → Option (ℤ × List MailObject × ℕ × L.State)
  after ctx alt mail mails uid none = none
  after ctx alt mail mails uid (some (ret, s)) = elim (is_neg ret) [
    | true ↦ some (ret, mail ∷ mails, uid, s)
    | false ↦
        before L K M (record mail { restored = true; index_ref = true })
          (add_objects L K M ctx alt mails ((uid + 1) % 2 ^ 32) ret s)
  ]

  pub turn_kept :
      (ctx : K.Context) (alt : Bool) (mail : MailObject) (mails : List MailObject) (uid : ℕ)
      (ret : ℤ) (s : L.State)
      → mail.restored ≡ true
      → add_objects L K M ctx alt (mail ∷ mails) uid ret s
        ≡ before L K M mail (add_objects L K M ctx alt mails uid ret s)
  unfolding add_objects after
  turn_kept ctx alt mail mails uid ret s e =
      ap
        (λ b. elim b [
          | true ↦ before L K M mail (add_objects L K M ctx alt mails uid ret s)
          | false ↦ after ctx alt mail mails uid (add_object L K M ctx mail alt uid s)
        ])
        e

  turn_added :
      (ctx : K.Context) (alt : Bool) (mail : MailObject) (mails : List MailObject) (uid : ℕ)
      (ret : ℤ) (s : L.State)
      → mail.restored ≡ false
      → add_objects L K M ctx alt (mail ∷ mails) uid ret s
        ≡ after ctx alt mail mails uid (add_object L K M ctx mail alt uid s)
  unfolding add_objects after
  turn_added ctx alt mail mails uid ret s e =
      ap
        (λ b. elim b [
          | true ↦ before L K M mail (add_objects L K M ctx alt mails uid ret s)
          | false ↦ after ctx alt mail mails uid (add_object L K M ctx mail alt uid s)
        ])
        e

  after-Restores :
      (ctx : K.Context) (alt : Bool) (mail : MailObject) (mails : List MailObject) (uid : ℕ)
      (o : Option (ℤ × L.State))
      → mail.restored ≡ false
      → ((ret : ℤ) (s : L.State)
          → Restores
              ((uid + 1) % 4294967296)
              mails
              (add_objects L K M ctx alt mails ((uid + 1) % 4294967296) ret s))
      → Restores uid (mail ∷ mails) (after ctx alt mail mails uid o)
  unfolding after
  after-Restores ctx alt mail mails uid none e h = tt
  after-Restores ctx alt mail mails uid (some (ret, s)) e h =
      elim (is_neg ret)
          as (λ b.
            is_neg ret ≡ b
            → Restores uid (mail ∷ mails) (elim b [
              | true ↦ some (ret, mail ∷ mails, uid, s)
              | false ↦
                  before L K M (record mail { restored = true; index_ref = true })
                    (add_objects L K M ctx alt mails ((uid + 1) % 2 ^ 32) ret s)
            ])) [
              | true ↦ λ q ok. absurd (ground arith)
              | false ↦ λ q. now_restored mail mails uid _ e (h ret s)
            ]
        refl

  pub add_objects-Restores :
      (ctx : K.Context) (alt : Bool) (mails : List MailObject) (uid : ℕ) (ret : ℤ) (s : L.State)
      → uid < 4294967296
      → Restores uid mails (add_objects L K M ctx alt mails uid ret s)
  unfolding add_objects unrestored
  add_objects-Restores ctx alt [] uid ret s h = λ ok. (tt, refl, omega arith)
  add_objects-Restores ctx alt (mail ∷ mails) uid ret s h = elim (Bool-cases mail.restored) [
    | inl e ↦
        subst (Restores uid (mail ∷ mails)) (sym (turn_kept ctx alt mail mails uid ret s e))
          (kept mail mails uid _ e (add_objects-Restores ctx alt mails uid ret s h))
    | inr e ↦
        subst (Restores uid (mail ∷ mails)) (sym (turn_added ctx alt mail mails uid ret s e)) (
          after-Restores ctx alt mail mails uid _ e
            (λ ret' s'. add_objects-Restores ctx alt mails _ ret' s' (omega arith)))
  ]
