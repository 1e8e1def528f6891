-- ===== src/Librados/Reading.antt =====
-- The store in memory, read and emptied: the laws of reading and of removing hold.
use dovecot_ceph_plugin.Prelude.{
  ◌≡◌, ◌≢◌, str_eq_iff, refl, false, none, is_neg, length, Text, str_eq_refl, arith,
}
use dovecot_ceph_plugin.Librados.Objects.{content_of}
use dovecot_ceph_plugin.Librados.Laws.{ReadLaws, WriteLaws, RemoveLaws}
use dovecot_ceph_plugin.Librados.Memory.{memory, memory_objects, Objects}

pub stat_size :
    (c oid : Text) (s : Objects)
    → is_neg (memory.stat c oid s).0 ≡ false
    → (memory.stat c oid s).1 ≡ length (content_of (s c oid))
stat_size c oid s h = ground arith

pub stat_same : (c oid : Text) (s : Objects) → (memory.stat c oid s).3 ≡ s
stat_same c oid s = ground arith

pub read_content :
    (c oid : Text) (s : Objects)
    → is_neg (memory.read c oid s).0 ≡ false
    → (memory.read c oid s).1 ≡ content_of (s c oid)
read_content c oid s h = ground arith

abbrev pub memory_reads : ReadLaws memory memory_objects
memory_reads = record {
  write_full_ok = λ c oid bl s h. rw (str_eq_refl c, str_eq_refl oid) refl;
  stat_ok = λ c oid s h. stat_size c oid s h;
  stat_keeps = λ c oid s. stat_same c oid s;
  read_ok = λ c oid s h. read_content c oid s h;
}

pub read_same : (c oid : Text) (s : Objects) → (memory.read c oid s).2 ≡ s
read_same c oid s = ground arith

pub written_elsewhere :
    (c oid oid' bl : Text) (s : Objects)
    → oid ≢ oid'
    → (memory.write_full c oid bl s).1 c oid' ≡ s c oid'
written_elsewhere c oid oid' bl s h = ground (arith, str_eq_iff oid oid')

abbrev pub memory_writes : WriteLaws memory memory_objects
memory_writes = record {
  read_keeps = λ c oid s. read_same c oid s;
  write_full_other = λ c oid oid' bl s h. written_elsewhere c oid oid' bl s h;
  write_full_failed = λ c oid bl s h. absurd (ground arith);
}

pub stays_removed :
    (c d oid oid' : Text) (s : Objects) → s d oid' ≡ none → (memory.remove c oid s).1 d oid' ≡ none
stays_removed c d oid oid' s h = ground arith

abbrev pub memory_removes : RemoveLaws memory memory_objects
memory_removes = record { remove_none = λ c d oid oid' s h. stays_removed c d oid oid' s h }
