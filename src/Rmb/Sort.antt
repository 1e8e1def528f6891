-- ===== src/Rmb/Sort.antt =====
-- src/librmb/tools/rmb/rmb-commands.cpp: the orders by which mails are sorted.
use dovecot_ceph_plugin.Prelude.{
  ℤ, to_u64, int_lt, stol, Bool, false, ◌≡◌, refl, Option, none, some, c_str, ltb, arith,
}
use dovecot_ceph_plugin.Types.{MetadataKey, mail_uid, received_time, physical_size}
use dovecot_ceph_plugin.Util.{get_key_metadata}
use dovecot_ceph_plugin.Storage.{Mail}

-- A value as a number; `none` is an exception.
number_of : MetadataKey → Mail → Option ℤ
number_of k mail = elim (get_key_metadata k mail.metadata) [ none ↦ none | some t ↦ stol (c_str t) ]

below_u64 : Option ℤ → Option ℤ → Bool
below_u64 none n = false
below_u64 (some m) none = false
below_u64 (some m) (some n) = ltb (to_u64 m) (to_u64 n)

below : Option ℤ → Option ℤ → Bool
below none n = false
below (some m) none = false
below (some m) (some n) = int_lt m n

-- Both numbers are read from the first mail.
pub sort_uid : Option Mail → Option Mail → Bool
sort_uid none j = false
sort_uid (some i) none = false
sort_uid (some i) (some j) = below_u64 (number_of mail_uid i) (number_of mail_uid i)

pub sort_recv_date : Option Mail → Option Mail → Bool
sort_recv_date none j = false
sort_recv_date (some i) none = false
sort_recv_date (some i) (some j) = below (number_of received_time i) (number_of received_time i)

pub sort_phy_size : Option Mail → Option Mail → Bool
sort_phy_size none j = false
sort_phy_size (some i) none = false
sort_phy_size (some i) (some j) = below_u64 (number_of physical_size i) (number_of physical_size i)

pub sort_save_date : Option Mail → Option Mail → Bool
sort_save_date none j = false
sort_save_date (some i) none = false
sort_save_date (some i) (some j) = int_lt i.save_date j.save_date

below_u64_same : (n : Option ℤ) → below_u64 n n ≡ false
unfolding below_u64
below_u64_same none = refl
below_u64_same (some m) = ground arith

-- No mail comes before another by its uid.
sort_uid_never : (i j : Option Mail) → sort_uid i j ≡ false
unfolding sort_uid
sort_uid_never none j = refl
sort_uid_never (some i) none = refl
sort_uid_never (some i) (some j) = below_u64_same (number_of mail_uid i)
