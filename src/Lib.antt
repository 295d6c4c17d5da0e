-- ===== src/Lib.antt =====
-- Verification of the C code of the Wiren Board repository.
--
-- The repository holds packages, tools and root file system scripts for Wiren Board controllers.
-- Two C programs are in it: the readdir substitute of the firmware tool chain,
-- fw-toolchain-legacy/ext4_dir_order.c, and the MQTT broker that the controllers run,
-- contrib/deb/mosquitto/mosquitto-1.4.2.
--
-- Common has the shared names: Boolean tests, lists measured by native numbers, byte strings,
-- predicates on lists, and the laws of the bit operations.
--
-- DirOrder models fw-toolchain-legacy/ext4_dir_order.c.
--   * Hash: half_md4_transform, str2hashbuf and dirhash. A uint32_t is a number below 2 ^ 32, and
--     every wrap-around is written out. The loop of dirhash recurs on the accessibility of the
--     length, so it needs no fuel.
--   * Seed: load_seed with its static variables as the record Settings. sscanf and atoi are
--     arguments; a read past the NUL of the string is the outcome none.
--   * Listing: get_listing, next_entry, readdir, readdir64 and closedir, as functions on the record
--     World of the C library's streams and the list of listings. Allocations that fail are
--     an argument (Memory). qsort is an argument, with its law Sorts. pthread_once and the mutex
--     are left out: the calls are taken one at a time.
--
-- Topic models the topic functions of contrib/deb/mosquitto/mosquitto-1.4.2/lib/util_mosq.c:
-- mosquitto_pub_topic_check, mosquitto_sub_topic_check and mosquitto_topic_matches_sub. The two
-- positions of the match are the rests of the filter and the topic, and every round takes one
-- character of the filter, so there is no fuel. Topic/Levels says what the wildcards mean.
--
-- Packet models the wire format of the same library.
--   * Outgoing: the buffer (lib/util_mosq.c, _mosquitto_packet_alloc), the writers of lib/net_mosq.c
--     and the commands of lib/send_mosq.c; a failed assert is a fault of its own. The loop for the
--     remaining length has five turns, after which the source stops too.
--   * Incoming: the loop of _mosquitto_packet_read for the remaining length, over the bytes that
--     the network has, and the readers of lib/net_mosq.c; a read outside of the payload is the
--     outcome overrun. Sockets, and the queues of packets, are not modelled.
--
-- Broker models the queue of a client in the broker's message database,
-- contrib/deb/mosquitto/mosquitto-1.4.2/src/database.c, as built without websockets.
--   * State: the structures of src/mosquitto_broker.h, as far as the queue looks at them. A client's
--     list of messages is a list of records with their addresses, last_msg is an address, and the
--     counters are integers that do not overflow. A stored message that a pointer names is looked
--     up by its address; the release of an address that is not listed changes nothing.
--   * Queue: _message_remove and mqtt3_db_message_delete.
--   * Insert: mqtt3_db_message_insert; allocations are an argument, a failed assert or a pointer to
--     nothing is the outcome broken.
--   * Reset: mqtt3_db_message_reconnect_reset, mqtt3_db_message_update, mqtt3_db_messages_delete.
--   * Write: mqtt3_db_message_write, with the sending functions as an argument, and the number of
--     passes of its loop as fuel: two for each message and the limit of the window are enough where
--     it ends. A loop that is not done behind them is the outcome running, a missing stored message
--     the outcome crashes. Also the states that mqtt3_db_message_timeout_check sets.
--   * Store: mqtt3_db_message_store and mqtt3_db_message_store_find. Timeout:
--     mqtt3_db_message_timeout_check over the clients with a socket. Tally: mosquitto__db_msg_store_clean.
-- Not modelled of that file: mqtt3_db_message_release, which delivers to other clients.
--
-- Subs models the subscription tree of the broker, contrib/deb/mosquitto/mosquitto-1.4.2/src/subs.c,
-- as built with persistence and with the $SYS topics. A struct _mosquitto_subhier with its children
-- and its siblings is a Hier; a node has an address, by which clients refer to it.
--   * Tokens: _sub_topic_append and _sub_topic_tokenise. Which allocations succeed is an argument, a
--     list of Boolean values.
--   * Tree and Prune: _sub_add and _sub_remove, by recursion on the tokens. The results of malloc
--     are a list of addresses in the record State; a read outside of the client's array of
--     references is the outcome overrun.
--   * Search: _sub_search, with what is done at a node as an argument. Process: _subs_process on the
--     queues of the clients, with mosquitto_acl_check as an argument, and the insertion of Broker. A
--     pointer to nothing is the outcome none.
--   * Calls: mqtt3_sub_add, mqtt3_sub_remove, mqtt3_db_messages_queue, mqtt3_subs_clean_session.
--   * Retain: _retain_process, _retain_search and mqtt3_retain_queue.
--   * Close: subhier_clean and mqtt3_db_close of src/database.c.
--   * Steps: the roots that mqtt3_db_open makes, and the calls in any order as a relation on trees.
--   * Paths, Search/Order and Retain/Kept say what the tree means: a map from paths to leaves, its
--     nodes in order, and its retained messages by their paths.
-- mqtt3_sub_tree_print, which prints the tree, is left out.
--
-- Acl models the access control lists of src/security_default.c of the same broker: _add_acl,
-- _add_acl_pattern, _acl_cleanup, mosquitto_acl_check_default and the choice of a client's list in
-- mosquitto_security_apply_default, and mosquitto_acl_check of src/security.c, which the argument for
-- access control in Subs stands for; a plugin is an argument in turn. The variable result has an
-- argument for what it holds at first, and allocations are an argument.
-- PasswordFile models _pwfile_parse, whose lines are what fgets leaves in a buffer of 256 bytes; a read
-- in front of a text is the outcome underrun. Passwords models mosquitto_unpwd_check_default and
-- mosquitto_security_apply_default, with the digest of OpenSSL as an argument, and of do_disconnect of
-- src/loop.c and mqtt3_context_disconnect of src/context.c what they do to a client that is
-- disconnecting. LetIn and Reload say whom a reload lets in, and which list each client gets.
--
-- Persist models src/persist.c of the same broker, which saves the database in a file and takes it up
-- again. A dbid_t and a time_t have 8 bytes and stand in the file in the order of the memory, here
-- the lowest byte first.
--   * Output: write_e. How many bytes each call of fwrite takes is an argument, a list; behind its end
--     all is written. Input: read_e on the bytes that are left, with the outcomes error and fault,
--     for a pointer to nothing. What an error leaves of the database is not kept, since the broker
--     does not start then.
--   * Write and Backup: the writers of the chunks and mqtt3_db_backup, for a system where rename takes
--     the place of an existing file. The hash table of the clients is a list in its order.
--   * Read, Contexts, Apply, Restore: the functions for the chunks and mqtt3_db_restore, with the calls
--     of the message store of Broker and of the tree of Subs. Allocations are given for each chunk
--     by its number, and fseek is an argument. The loop has fuel, one more than the file has bytes,
--     which is enough where fseek does not go back in the file, since every round takes two bytes at
--     least; where a long has 32 bits it may go back. A byte that is no constant of its enumeration is the outcome fault.
--   * Items and Contents say what the bytes mean: the items of a file, their effects one behind the
--     other, and the items of a database.
--
-- Not modelled: the parsing of the other files, the handlers, the main loop and the client programs,
-- and the older contrib/deb/mosquitto/mosquitto-1.3.4.
pub mod Common
pub mod DirOrder
pub mod Topic
pub mod Packet
pub mod Broker
pub mod Subs
pub mod Acl
pub mod Persist
