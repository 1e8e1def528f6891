-- ===== src/Storage/Search.antt =====
-- src/librmb/rados-storage-impl.cpp: `find_mails_async`, the search for mails by threads, one for each
-- primary OSD.
pub mod Schedules
use dovecot_ceph_plugin.Prelude.{
  ℤ, pos, int_eq, not, ◌&&◌, is_empty, c_str, Option, none, some, List, [], ◌∷◌, ◌++◌, Text, Map,
  TextSet, codes, str_eq, add, if◌then◌else◌,
}
use dovecot_ceph_plugin.Util.{extract_pg_and_primary_osd}

-- The names in one placement group, by the name of the group as it is printed.
abbrev pub Listing : Type 0
Listing = Text → List Text

-- What a thread inserts, in order: the names in each of its groups.
pub thread_names : Listing → List Text → List Text
thread_names names [] = []
thread_names names (pg ∷ pgs) = names pg ++ thread_names names pgs

-- One thread for each OSD; a row that names none is left out.
pub threads_of : Listing → Map (List Text) → List (List Text)
threads_of names [] = []
threads_of names ((osd, pgs) ∷ rows) =
    let rest = threads_of names rows in
    if str_eq osd (codes "oon") then rest else thread_names names pgs ∷ rest

-- A thread inserts its next name, under the lock of the set.
pub data Step : List (List Text) → TextSet → List (List Text) → TextSet → Type 0 where
  insert_next :
      (before after : List (List Text)) (oid : Text) (oids : List Text) (oid_list : TextSet)
      → Step (before ++ (oid ∷ oids) ∷ after) oid_list (before ++ oids ∷ after) (add oid oid_list)

-- Steps until every thread has ended. The limit on the threads that run at once only rules out some of
-- these ways to take turns.
pub data Runs : List (List Text) → TextSet → TextSet → Type 0 where
  ended : (oid_list : TextSet) → Runs [] oid_list oid_list
  joined :
      (before after : List (List Text)) (oid_list result : TextSet)
      → Runs (before ++ after) oid_list result
      → Runs (before ++ [] ∷ after) oid_list result
  runs :
      (ts us : List (List Text)) (s t result : TextSet)
      → Step ts s us t
      → Runs us t result
      → Runs ts s result

-- One thread after another.
unfoldable pub insert_names : List Text → TextSet → TextSet
insert_names [] oid_list = oid_list
insert_names (oid ∷ oids) oid_list = insert_names oids (add oid oid_list)

unfoldable pub insert_in_order : List (List Text) → TextSet → TextSet
insert_in_order [] oid_list = oid_list
insert_in_order (t ∷ ts) oid_list = insert_in_order ts (insert_names t oid_list)

-- The whole search: a text of the monitor that cannot be read, or no thread allowed where one is
-- needed, is undefined. The threads are run in order, which by `Schedules` gives what every other
-- schedule gives.
unfoldable pub find_mails_async : Listing → Text → ℤ → Option TextSet
find_mails_async names outbl num_threads = elim (extract_pg_and_primary_osd (c_str outbl)) [
  | none ↦ none
  | some osd_pg_map ↦
      if int_eq num_threads (pos 0) && not (is_empty osd_pg_map)
      then none
      else some (insert_in_order (threads_of names osd_pg_map) [])
]
