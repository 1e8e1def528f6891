-- ===== src/SaveLog/File.antt =====
-- src/librmb/rados-save-log.cpp: the log's file. Whether `std::ofstream` can open the file is an
-- argument; `contents` is what the file holds, to which the stream appends.
use dovecot_ceph_plugin.Prelude.{
  ◌≡◌, refl, ◌++◌, Bool, true, false, not, ◌&&◌, List, [], ◌∷◌, Text, arith, is_empty, append_assoc,
  append-nil, if◌then◌else◌,
}
use dovecot_ceph_plugin.SaveLog.{RadosSaveLogEntry, print}

pub record RadosSaveLog : Type 0 where
  pub logfile : Text
  pub log_active : Bool
  pub ofs_open : Bool
  pub contents : Text

-- The constructor from a file name, and `set_save_log_file`.
unfoldable pub make : Text → Text → RadosSaveLog
make logfile contents = record {
  logfile = logfile;
  log_active = not (is_empty logfile);
  ofs_open = false;
  contents = contents;
}

unfoldable pub set_save_log_file : Text → RadosSaveLog → RadosSaveLog
set_save_log_file logfile log = record log {
  logfile = logfile;
  log_active = not (is_empty logfile);
}

unfoldable pub open_log : Bool → RadosSaveLog → Bool × RadosSaveLog
open_log opens log =
    if log.log_active && not log.ofs_open
    then (opens, record log { ofs_open = opens; log_active = opens })
    else (log.log_active, log)

unfoldable pub append : RadosSaveLogEntry → RadosSaveLog → RadosSaveLog
append e log =
    if log.log_active && log.ofs_open
    then record log { contents = log.contents ++ print e }
    else log

unfoldable pub close_log : RadosSaveLog → Bool × RadosSaveLog
close_log log =
    if log.log_active && log.ofs_open then (true, record log { ofs_open = false }) else (true, log)

unfoldable pub append_all : List RadosSaveLogEntry → RadosSaveLog → RadosSaveLog
unfolding append
append_all [] log = log
append_all (e ∷ es) log = append_all es (append e log)

abbrev pub lines : List RadosSaveLogEntry → Text
lines [] = []
lines (e ∷ es) = print e ++ lines es

append_all_active :
    (es : List RadosSaveLogEntry) (log : RadosSaveLog)
    → log.log_active ≡ true
    → log.ofs_open ≡ true
    → append_all es log ≡ record log { contents = log.contents ++ lines es }
unfolding append_all
append_all_active [] log a o = ground (arith, append-nil log.contents)
append_all_active (e ∷ es) log a o = ground (
  arith,
  append_all_active es (record log { contents = log.contents ++ print e }) a o,
  append_assoc log.contents (print e) (lines es),
)

append_all_inactive :
    (es : List RadosSaveLogEntry) (log : RadosSaveLog)
    → log.log_active ≡ false
    → append_all es log ≡ log
unfolding append_all
append_all_inactive [] log a = refl
append_all_inactive (e ∷ es) log a = ground (arith, append_all_inactive es log a)

-- A session on a closed log with a file name: where the file opens, it gains one line for each
-- entry, in order; where it does not, nothing is written and the log is inactive. It ends closed.
pub session_lem :
    (opens : Bool) (es : List RadosSaveLogEntry) (log : RadosSaveLog)
    → log.log_active ≡ true
    → log.ofs_open ≡ false
    → (close_log (append_all es (open_log opens log).1)).1 ≡ record log {
      log_active = opens;
      contents = if opens then log.contents ++ lines es else log.contents;
    }
unfolding open_log close_log
session_lem true es log a o =
    rw (a, o, append_all_active es (record log { ofs_open = true; log_active = true }) refl refl)
      (ground arith)
session_lem false es log a o =
    rw (a, o, append_all_inactive es (record log { ofs_open = false; log_active = false }) refl)
      (ground arith)
