-- ===== src/SaveLog.antt =====
-- src/librmb/rados-save-log.h and rados-save-log.cpp: the log of saved, copied and moved objects.
pub mod RoundTrip
pub mod Moves
pub mod File
pub mod Tests
use dovecot_ceph_plugin.Prelude.{
  ℕ, ◌≡◌, ◌++◌, Bool, true, false, not, ◌&&◌, ◌||◌, Option, none, some, List, [], ◌∷◌, Text, codes,
  is_empty, cut, split_on, str_eq, if◌then◌else◌,
}
use dovecot_ceph_plugin.Metadata.{RadosMetadata, empty_metadata, from_string, to_string}

pub record RadosSaveLogEntry : Type 0 where
  pub oid : Text
  pub ns : Text
  pub pool : Text
  pub op : Text
  pub src_oid : Text
  pub src_ns : Text
  pub src_user : Text
  pub metadata : List RadosMetadata

abbrev pub entry : Text → Text → Text → Text → RadosSaveLogEntry
entry oid ns pool op = record {
  oid = oid;
  ns = ns;
  pool = pool;
  op = op;
  src_oid = [];
  src_ns = [];
  src_user = [];
  metadata = [];
}

-- The loop over the metadata items: the items before one that does not parse are kept.
parse_items : List Text → List RadosMetadata → Bool × List RadosMetadata
unfolding from_string
parse_items [] metadata = (true, metadata)
parse_items (item ∷ items) metadata = elim (from_string item (some empty_metadata)) [
  | none ↦ (false, metadata)
  | some m ↦ parse_items items (metadata ++ m ∷ [])
]

parse_right : Text → RadosSaveLogEntry → Bool × RadosSaveLogEntry
unfolding parse_items
parse_right right e =
    let (ok, metadata) = parse_items (split_on b':' right) e.metadata in
    (ok, record e { metadata = metadata })

-- Fewer than four tokens are refused; more are ignored.
parse_left : List Text → Text → RadosSaveLogEntry → Bool × RadosSaveLogEntry
unfolding parse_right
parse_left (verb ∷ ns ∷ oid ∷ user ∷ more) right e =
    if str_eq verb (codes "mv")
    then parse_right right (record e { src_ns = ns; src_oid = oid; src_user = user })
    else (true, e)
parse_left _ right e = (false, e)

unfoldable pub parse_mv_op : RadosSaveLogEntry → Bool × RadosSaveLogEntry
unfolding parse_left
parse_mv_op e = elim (cut b';' e.op) [
  | none ↦ (false, e)
  | some (left, right) ↦
      if is_empty left then (false, e) else parse_left (split_on b':' left) right e
]

unfoldable pub op_save : Text
op_save = codes "save"

unfoldable pub op_cpy : Text
op_cpy = codes "cpy"

convert_rest : List RadosMetadata → Text → Text
unfolding to_string
convert_rest [] separator = []
convert_rest (m ∷ metadata) separator =
    separator ++ (to_string m ++ convert_rest metadata separator)

unfoldable pub convert_metadata : List RadosMetadata → Text → Text
unfolding convert_rest
convert_metadata [] separator = []
convert_metadata (m ∷ metadata) separator = to_string m ++ convert_rest metadata separator

unfoldable pub op_mv : Text → Text → Text → List RadosMetadata → Text
unfolding convert_metadata
op_mv src_ns src_oid src_user metadata =
    codes "mv:"
    ++ (src_ns
        ++ b':' ∷ (src_oid ++ b':' ∷ (src_user ++ b';' ∷ convert_metadata metadata (codes ":"))))

-- `operator<<`, one line.
unfoldable pub print : RadosSaveLogEntry → Text
print e = e.op ++ b',' ∷ (e.pool ++ b',' ∷ (e.ns ++ b',' ∷ (e.oid ++ 10 ∷ [])))

-- An input stream: what is left to read, and the flags that the loops test.
pub record Stream : Type 0 where
  pub rest : Text
  pub eof : Bool
  pub fail : Bool

-- `std::getline(is, line)` into an empty line.
read_line : Stream → Text × Stream
read_line is =
    if is.eof || is.fail then ([], record is { fail = true }) else elim (cut 10 is.rest) [
      | none ↦ (is.rest, record { rest = []; eof = true; fail = is_empty is.rest })
      | some (line, rest) ↦ (line, record is { rest = rest })
    ]

read_items : List Text → Stream → RadosSaveLogEntry → Stream × RadosSaveLogEntry
unfolding parse_mv_op
read_items (op ∷ pool ∷ ns ∷ oid ∷ []) is e =
    (is, (parse_mv_op (record e { op = op; pool = pool; ns = ns; oid = oid })).1)
read_items _ is e = (record is { fail = true }, e)

-- `operator>>`; the result of `parse_mv_op` is not used.
unfoldable pub read : Stream → RadosSaveLogEntry → Stream × RadosSaveLogEntry
unfolding read_line read_items
read is e = let (line, is') = read_line is in read_items (split_on b',' line) is' e
