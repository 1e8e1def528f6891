-- ===== src/Lib.antt =====
-- Verification library of the Dovecot Ceph plugin, which keeps the mails and the dictionaries of a
-- Dovecot server as objects of a Ceph cluster.
--
-- Parts of the program and the files that model them. The names are those of the source, in this
-- library's spelling.
--   Librados      the calls on objects and object maps (src/dict-rados and src/librmb call librados),
--                 a parameter of the model; Librados/Objects is what an object
--                 holds, Librados/Laws what the code relies on, Librados/Memory is an
--                 instance in memory that shows the laws can hold
--   Cluster       src/librmb/rados-cluster-impl.cpp: the shared, counted handle of the process.
--                 The client's calls are a parameter (Client)
--   Storage       src/librmb/rados-storage-impl.cpp: mails as objects of a pool: reading, deleting,
--                 copying, moving, the chunked write and the recovery index. Storage/Connect opens
--                 and closes the connection (ClusterCalls), Storage/Search is the search for mails by threads,
--                 whose turns are a relation. Storage/Chunks has the
--                 arithmetic of the chunks, Storage/Write what an operation does to an object's bytes
--   Save          src/storage-rbox/rbox-save.cpp: saving a mail. Save/Begin sets it up, Save/Entries is its
--                 metadata, Save/Finish the end of its stream, Save/Rollback and Save/Commit the end of
--                 the transaction. What Dovecot does with streams and indexes is a parameter, and so are
--                 the opening of the connection and the synchronisation of the index
--   Namespaces    src/librmb/rados-namespace-manager.cpp: the namespace of a user, with its cache, over
--                 a configuration object that is a parameter; Namespaces/Stored gives it the one of
--                 src/librmb/rados-dovecot-ceph-cfg-impl.h, over the objects
--   Types         src/librmb/rados-types.h: the keys of a mail's metadata
--   Metadata      src/librmb/rados-metadata.h: one metadata value and its text form
--   SaveLog       src/librmb/rados-save-log.h and .cpp: the log of saved, copied and moved mails,
--                 from which an interrupted run is undone
--   Util          src/librmb/rados-util.cpp: validation of metadata, flags, the recovery index,
--                 the parsers of placement groups, replacing a text in a text
--   Alt           src/librmb/rados-util.cpp: copying and moving a mail to the alternative pool; the
--                 metadata storage that is configured is a parameter
--   Attributes    src/librmb/rados-metadata-storage-default.cpp and -ima.cpp: the two modules that keep the
--                 metadata of a mail object, which answer the same calls (MetadataModule)
--   Rebuild       src/storage-rbox/rbox-sync-rebuild.cpp: building the indexes anew from the objects.
--                 Rebuild/Load groups the mails by mailbox, Rebuild/Header is the plugin's part of an
--                 index header, Rebuild/Namespace goes through the mailboxes, Rebuild/Retry assigns what is
--                 left. Dovecot's calls on indexes and mailboxes are a parameter (IndexCalls,
--                 NamespaceCalls), and so is the opening of the connection
--   Mailbox       src/storage-rbox/rbox-storage.cpp: the pools of a mailbox; Mailbox/Indexes creates and
--                 updates its index, as a list of what is written in a transaction, Mailbox/Delete deletes one
--   Settings      src/librmb/rados-dovecot-config.cpp: the settings that Dovecot's configuration gives,
--                 and their reading in src/storage-rbox/rbox-storage.cpp
--   Sync          src/storage-rbox/rbox-sync.cpp: bringing the objects in line with a mailbox's index.
--                 Sync/Begin decides on a rebuild, Sync/Index goes through the changes, Sync/Flags
--                 writes flags and keywords to the objects, Sync/Finish removes the objects of expunged
--                 mails once the index is committed. Dovecot's calls are a parameter (SyncCalls,
--                 FinishCalls, BeginCalls), and so are the opening of the connection and the rebuild
--   Copy          src/storage-rbox/rbox-copy.cpp: copying a mail into another mailbox, by Storage and
--                 Save; Dovecot's calls on the mail are a parameter (CopyCalls)
--   Rmb           src/librmb/tools/rmb/rmb-commands.cpp: undoing what a save log lists, sorting
--   Config        src/librmb/rados-ceph-json-config.cpp and rados-ceph-config.cpp: the plugin's settings
--                 in Ceph; the JSON library is a parameter. Config/Loading is the object that holds them
--   DictRados     src/dict-rados/dict-rados.cpp and src/librmb/rados-dictionary-impl.cpp: Dovecot's
--                 dictionary interface over two object maps, private and shared
--   Prelude       what the parts share: tests, lists, bytes, machine integers, maps kept in order
--
-- A std::string is a list of bytes, each a natural number. A std::map with text keys is a list of
-- pairs in ascending order of the keys, a std::set an ascending list. An int is an integer, and a
-- conversion to a narrower type is written out with its wrap-around. A call that can throw
-- returns none where it throws. State is passed explicitly.
--
-- Loops are structural recursion, but two: replacing a text in a text takes a number of rounds, of
-- which one more than there are bytes is enough, and so does undoing a log, where one more than there
-- are entries is enough. The loops over a range of mails take the number of rounds, the removal of an
-- object its ten retries, the rebuild at the beginning of a synchronisation its three tries. The rebuild calls itself again at most once. The iteration over a dictionary is called again and again by the
-- client; its theorem takes a number of calls and asks it to be larger than the number of entries.
--
-- Not modelled: the glue to Dovecot's C interfaces (virtual tables, streams, opening mailboxes,
-- reading mails), logging, asynchronous completions, and dates, which the C library formats.
pub mod Alt
pub mod Attributes
pub mod Cluster
pub mod Config
pub mod Copy
pub mod DictRados
pub mod Librados
pub mod Mailbox
pub mod Metadata
pub mod Namespaces
pub mod Prelude
pub mod Rebuild
pub mod Rmb
pub mod Save
pub mod SaveLog
pub mod Settings
pub mod Storage
pub mod Sync
pub mod Types
pub mod Util
