-- ===== src/SaveLog/RoundTrip.antt =====
-- Reading back the lines of the save log.
use dovecot_ceph_plugin.Prelude.{
  ℕ, ◌≡◌, refl, ◌++◌, true, false, [], ◌∷◌, Text, arith, is_empty, free_of, cut-append, split_on,
  split_on-append, split_on_last, free_of-append, append_assoc, ◌==◌,
}
use dovecot_ceph_plugin.SaveLog.{
  RadosSaveLogEntry, entry, parse_mv_op, print, read_line, read_items, read,
}

-- A field that the line format can carry.
abbrev pub IsField : Text → Type 0
IsField s = (free_of b',' s ≡ true) × (free_of 10 s ≡ true)

-- The four fields of a line; the object's name is not empty.
pub record IsPrintable (e : RadosSaveLogEntry) : Type 0 where
  pub op : IsField e.op
  pub pool : IsField e.pool
  pub ns : IsField e.ns
  pub oid : IsField e.oid
  pub named : is_empty e.oid ≡ false

free_of-line :
    (c : ℕ) (a b : Text) (s : ℕ)
    → free_of c a ≡ true
    → (s == c) ≡ false
    → free_of c b ≡ true
    → free_of c (a ++ s ∷ b) ≡ true
free_of-line c a b s ha hs hb = free_of-append c a (s ∷ b) ha (ground arith)

abbrev line : RadosSaveLogEntry → Text
line e = e.op ++ b',' ∷ (e.pool ++ b',' ∷ (e.ns ++ b',' ∷ e.oid))

print-line : (e : RadosSaveLogEntry) (rest : Text) → print e ++ rest ≡ line e ++ 10 ∷ rest
unfolding print
print-line e rest = simp append_assoc

line_free : (e : RadosSaveLogEntry) → IsPrintable e → free_of 10 (line e) ≡ true
line_free e p =
    free_of-line 10 e.op _ b',' p.op.1 refl (
      free_of-line 10 e.pool _ b',' p.pool.1 refl (free_of-line 10 e.ns _ b',' p.ns.1 refl p.oid.1))

split_last : (s : Text) → free_of b',' s ≡ true → is_empty s ≡ false → split_on b',' s ≡ s ∷ []
split_last [] h ne = cc
split_last (c ∷ s) h ne = split_on_last b',' c s h

split_line :
    (e : RadosSaveLogEntry)
    → IsPrintable e
    → split_on b',' (line e) ≡ e.op ∷ e.pool ∷ e.ns ∷ e.oid ∷ []
split_line e p = rw (
  split_on-append b',' e.op (e.pool ++ b',' ∷ (e.ns ++ b',' ∷ e.oid)) p.op.0,
  split_on-append b',' e.pool (e.ns ++ b',' ∷ e.oid) p.pool.0,
  split_on-append b',' e.ns e.oid p.ns.0,
  split_last e.oid p.oid.0 p.named,
)

-- Take an entry whose operation, pool, namespace and object name have no comma and no line feed, and
-- whose object name is not empty. Reading it, printed, from a stream in a good state gives these four
-- fields, as far as the operation parses also the fields of a move, and leaves the stream after the
-- line.
pub read-print :
    (e : RadosSaveLogEntry) (rest : Text)
    → IsPrintable e
    → read (record { rest = print e ++ rest; eof = false; fail = false }) (entry [] [] [] []) ≡ (
      record { rest = rest; eof = false; fail = false },
      (parse_mv_op (entry e.oid e.ns e.pool e.op)).1,
    )
unfolding read read_line read_items
read-print e rest p =
    rw (print-line e rest, cut-append 10 (line e) rest (line_free e p), split_line e p)

-- At its end a stream ends, whatever was read from it.
pub read_end :
    (e : RadosSaveLogEntry)
    → (read (record { rest = []; eof = false; fail = false }) e).0
      ≡ record { rest = []; eof = true; fail = true }
unfolding read read_line read_items split_on
read_end e = refl
