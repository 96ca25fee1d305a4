-- ===== src/Lib.antt =====
-- A model of the MQTT broker sol, and what has been proved of it.
--
-- The program reads packets of MQTT 3.1.1 from TCP connections (server.c, network.c), parses them
-- (mqtt.c, pack.c), keeps the topics in a trie (core.c, trie.c, list.c) and its clients in a hash
-- table (hashtable.c), and sends each published message to the subscribers of its topic. The paths
-- are those of sol/src/ in the repository.
--
-- Parts, and the files that model them:
--   Base       shared names, `Run` for C code that may run into undefined behaviour, lists and bits.
--   Pack       sol/src/pack.c: integers and strings in network byte order. A pointer into a received
--              buffer is the list of the bytes from there on; memory being filled is a `Buffer`.
--   Mqtt       sol/src/mqtt.h and mqtt.c. Mqtt/Length: `mqtt_encode_length`, `mqtt_decode_length`;
--              Mqtt/Packet: the structures; Mqtt/Build: `mqtt_packet_ack` and the others of that
--              family; Mqtt/Unpack: `unpack_mqtt_packet` with its table and handlers; Mqtt/Pack:
--              `pack_mqtt_packet` with its table and handlers.
--   Trie       sol/src/trie.c, with the functions of list.c that it calls (`bisect_list`,
--              `list_remove`). The loop of `trie_node_insert` is the recursion on the key, with the
--              node that it goes on with as `next_child`.
--   Hashtable  sol/src/hashtable.c, with `STREQ` of util.h and the CRC in Hashtable/Hash.
--   Util       sol/src/util.c: `number_len`, `parse_int`, `remove_occur`, `append_string`.
--   Core       sol/src/core.c: topics, subscribers, and the trie of topics.
--   Config     sol/src/config.c. Config/Sizes: amounts of memory and time; Config/Options: the
--              options and their defaults; Config/File: `config_load`. The file is its bytes.
--   Config     sol/src/config.c. Config/Sizes: amounts of memory and time; Config/Options: the
--              options and their defaults; Config/File: `config_load`. The file is its bytes.
--   Config     sol/src/config.c. Config/Sizes: amounts of memory and time; Config/Options: the
--              options and their defaults; Config/File: `config_load`. The file is its bytes.
--   Config     sol/src/config.c. Config/Sizes: amounts of memory and time; Config/Options: the
--              options and their defaults; Config/File: `config_load`. The file is its bytes.
--   Network    sol/src/network.c: `recv_bytes` and `send_bytes`; Network/EventLoop: `evloop_wait` and
--              the periodic tasks. What the system calls give is a parameter, and a callback is the
--              address of its closure.
--   Server     sol/src/server.c: `recv_packet`, `on_read`, the table `handlers`; Server/Publish:
--              `publish_handler`; Server/Session: `connect_handler`, `disconnect_handler`;
--              Server/Subscribe: `subscribe_handler`, `unsubscribe_handler`; Server/Stats:
--              `publish_message`, `publish_stats`. The handlers are the parameter `call` of `on_read`.
--   LinkedList sol/src/list.c: the nodes in memory, and the list with its head, tail and length;
--              LinkedList/Shape says when a list is well formed. Fuel: one round more than nodes.
--              What `free` is given is a list; that the data of two nodes differ is not asked.
--   Tests      runs on concrete inputs.
--
-- Numbers are natural numbers; what the C code wraps around is written out modulo a power of 2, and
-- what is undefined in C is a `Fault`: a read or write outside of a buffer, overflow of an `int`, a
-- call or a read through NULL, an index past the end of a table, `isspace` or `isdigit` of a negative
-- `char`. `malloc` and `calloc` give the memory asked for. A `char` is the byte that stands for it,
-- and is compared as a signed number.
--
-- Fuel: `encode_loop` has the four rounds of `MAX_LEN_BYTES`; `subscribe_loop` and
-- `unsubscribe_loop` have one round more than the buffer has bytes, which is enough since each round
-- reads two; `merge_sort_levels` has as many levels as nodes; `recv_loop` and `send_loop` have a
-- round for each byte, and `load_loop` one for each byte of the file; `number_len_loop` has as many
-- rounds as the number. `hashtable_put` has fuel for its rehashings, of which no bound is known: keys
-- with one hash fill every table.
--
-- Not modelled: the handlers of the acknowledgements and of PINGREQ, which have no definition in the
-- source, and `hashtable_map` and its relatives. As calls of the system, the setup of sockets in
-- network.c, `on_accept`, `on_write` and the start in server.c, logging, random identifiers, the
-- release of packets, byte strings and tables, and sol.c's `main`.
pub mod Config
pub mod Base
pub mod Pack
pub mod Mqtt
pub mod LinkedList
pub mod Trie
pub mod Hashtable
pub mod Server
pub mod Core
pub mod Network
pub mod Util
pub mod Tests
