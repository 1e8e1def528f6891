-- ===== src/Sync/Flags/Stored.antt =====
-- What a change of flags does to flags that were stored before.
use dovecot_ceph_plugin.Prelude.{
  ℕ, ◌<◌, ◌-◌, ◌≡◌, refl, ◌==◌, ==_iff, ℤ, is_neg, is_space, false, not, ◌&&◌, ◌||◌, Bool-cases,
  inl, inr, ltb, has_bit, has_bit-and, has_bit-or, has_bit_opposite, has_bit_large, none, some, [],
  Text, c_str, arith, if◌then◌else◌,
}
use Prim.Native.Nat.{bit_or}
use dovecot_ceph_plugin.Types.{oldv1_flags}
use dovecot_ceph_plugin.Librados.{Librados}
use dovecot_ceph_plugin.Metadata.{convert}
use dovecot_ceph_plugin.Util.{get_key_metadata, string_to_flags, flags_to_string}
use dovecot_ceph_plugin.Attributes.{MailObject, MetadataModule, new_mail_object}
use dovecot_ceph_plugin.Sync.{SyncCalls}
use dovecot_ceph_plugin.Sync.Flags.{new_flags, write_flags, change_flags}

-- What the code that saves or changes flags leaves under their key, read back.
stored_flags :
    (flags : ℕ)
    → string_to_flags (c_str (convert oldv1_flags (flags_to_string flags [])).bl)
      ≡ (if flags == 0 || is_space flags then none else some flags)
unfolding convert string_to_flags flags_to_string
stored_flags flags = ground (arith, ==_iff flags 0)

-- The bits of a value: those of the old one or of the added ones, and none of the removed ones.
abbrev pub IsChanged : ℕ → ℕ → ℕ → ℕ → Type 0
IsChanged flags add_flags remove_flags new =
    (k : ℕ)
    → has_bit k new ≡ ((has_bit k flags || has_bit k add_flags) && not (has_bit k remove_flags))

-- The complement of a byte, in a byte.
has_bit-complement :
    (k a b : ℕ)
    → a < 256
    → b < 256
    → (has_bit k a && has_bit k (255 - b)) ≡ (has_bit k a && not (has_bit k b))
has_bit-complement k a b ha hb = elim (Bool-cases (ltb k 8)) [
  | inl h ↦ rw (has_bit_opposite k 8 (255 - b) b (omega arith) (ground arith)) refl
  | inr h ↦ rw (has_bit_large k 8 a ha (ground arith)) refl
]

zero_bit : (k : ℕ) → has_bit k 0 ≡ false
zero_bit k = has_bit_large k 0 0 (omega arith) (omega arith)

-- What the mask leaves in the bits of the old value or of the added ones.
has_bit-mask :
    (k a b c : ℕ)
    → a < 256
    → b < 256
    → c < 256
    → ((has_bit k a || has_bit k b) && has_bit k (255 - c))
      ≡ ((has_bit k a || has_bit k b) && not (has_bit k c))
has_bit-mask k a b c ha hb hc =
    ground (arith, has_bit-complement k a c ha hc, has_bit-complement k b c hb hc)

new_flags-IsChanged :
    (flags add_flags remove_flags : ℕ)
    → flags < 256
    → add_flags < 256
    → remove_flags < 256
    → IsChanged flags add_flags remove_flags (new_flags add_flags remove_flags flags)
unfolding new_flags
new_flags-IsChanged flags add_flags remove_flags hf ha hr k = ground (
  arith,
  ==_iff add_flags 0,
  ==_iff remove_flags 0,
  zero_bit k,
  has_bit-or k flags add_flags,
  has_bit-and k flags (255 - remove_flags),
  has_bit-and k (bit_or flags add_flags) (255 - remove_flags),
  has_bit-complement k flags remove_flags hf hr,
  has_bit-mask k flags add_flags remove_flags hf ha hr,
)

module _ (L : Librados) (K : SyncCalls L) (M : L.IoCtx → MetadataModule L) (c : L.IoCtx) where
  write_flags-stored :
      (flags add_flags remove_flags : ℕ) (mail : MailObject) (ret : ℤ) (s : L.State)
      → get_key_metadata oldv1_flags mail.metadata
        ≡ some (convert oldv1_flags (flags_to_string flags [])).bl
      → write_flags L K M add_flags remove_flags mail c ret s ≡ (
          if flags == 0 || is_space flags
          then some (ret, s)
          else let (written, changed, s1) =
              (M c).set_metadata
                (convert oldv1_flags (flags_to_string (new_flags add_flags remove_flags flags) []))
                mail
                s in
            some (written, s1))
  unfolding write_flags
  write_flags-stored flags add_flags remove_flags mail ret s h =
      rw (write_flags, h, stored_flags flags) (ground (arith))

  -- All flags are bytes. Where a mail's flags were stored as the code stores them and its metadata can
  -- be loaded, a change of flags writes a value with exactly the bits of the old flags and of the added
  -- ones that are not among the removed ones, except where the old value is 0 or the code of a white
  -- space character: such flags are never changed again, and nothing is written or reported.
  pub change_flags-stored :
      (flags add_flags remove_flags : ℕ) (oid : Text) (loaded : ℤ) (mail : MailObject) (ret : ℤ)
      (s s1 : L.State)
      → flags < 256
      → add_flags < 256
      → remove_flags < 256
      → (M c).load_metadata (some (new_mail_object oid)) s ≡ some (loaded, some mail, s1)
      → is_neg loaded ≡ false
      → get_key_metadata oldv1_flags mail.metadata
        ≡ some (convert oldv1_flags (flags_to_string flags [])).bl
      → (new : ℕ) × IsChanged flags add_flags remove_flags new
        × (change_flags L K M add_flags remove_flags oid c ret s ≡ (
            if flags == 0 || is_space flags
            then some (ret, s1)
            else let (written, changed, s2) =
                (M c).set_metadata (convert oldv1_flags (flags_to_string new [])) mail s1 in
              some (written, s2)))
  unfolding change_flags
  change_flags-stored flags add_flags remove_flags oid loaded mail ret s s1 hf ha hr e ok h = (
    new_flags add_flags remove_flags flags,
    new_flags-IsChanged flags add_flags remove_flags hf ha hr,
    rw (change_flags, e, ok) (write_flags-stored flags add_flags remove_flags mail ret s1 h),
  )
