-- ===== src/Lib.antt =====
-- libmowgli: containers, strings and the other pieces that C daemons share.
--
-- The library is a set of C modules under src/libmowgli. The containers hold the data of the
-- others: dictionaries map names to objects, classes and hooks, lists hold event sources and line
-- buffers, queues and indexes hold plain pointers, and strings and line buffers hold bytes.
--
-- Parts modelled, and the files that model them:
--   Base, Memory    shared: lists on native numbers, blocks of memory read and written in range
--   Strings         src/libmowgli/core/mowgli_string.c: `mowgli_strlcpy`, `mowgli_strlcat`, and
--                   `mowgli_string_t`. `Buffer` has its three data fields.
--                   Strings/Copy: the two copies. Strings/Grow, Strings/Append: the
--                   buffer.
--   Index           src/libmowgli/container/index.c: the growing array of pointers, one function
--                   per function. Index/Grow: `allocate`. Index/Room: `make_room`.
--                   Index/Edit: the edits.
--   Dictionary      src/libmowgli/container/dictionary.c: a splay tree whose elements are also on
--                   a sorted list. Dictionary/Order: the comparator. Dictionary/Inorder and
--                   Dictionary/Search: `retune`. Dictionary/Map: the map that is meant.
--                   Dictionary/Lookup, Link, Add, Unlink, Delete, Linear: the
--                   operations. Dictionary/Iterate: walks and statistics.
--   Nodes           src/libmowgli/container/list.c: doubly linked lists in a memory of nodes.
--                   Nodes/Chain: what a well-formed list is. Nodes/Insert, Between, Unlink, Move:
--                   the edits. Nodes/Walk, Locate: positions and data. Nodes/Whole: `concat` and
--                   `reverse`.
--   Queue           src/libmowgli/container/queue.c: double-ended queues, on the memory of Nodes.
--                   Queue/Edit: what changes links. Queue/Walk: what only follows them.
--   Random          src/libmowgli/base/random.c: the Mersenne Twister. Random/Ranged: the draw
--                   from a range.
--   Pool            src/libmowgli/core/heap.enabled.c: pools of elements. Pool/Valid: well-formed
--                   pools. Pool/Take, Alloc, Change, Free: the two operations.
--   Bitvector       src/libmowgli/base/bitvector.c: vectors of bits. Bitvector/Bounds: the word
--                   that is addressed.
--   Json            src/libmowgli/ext/json.c: JSON values, read and written. Json/Table, Grammar: the
--                   push-down parser. Json/Text, Lexer, Stream: from bytes to tokens. Json/Print:
--                   the serializer. Json/Rules, Markers, Expand, Returns, Chars, Total: that the
--                   parser returns. Json/Space, Room, Depth: its stack. Json/Chunks: texts in pieces.
--                   Json/Tokens, Steps, Accept: the grammar. Json/Scan, Number: strings and integers.
--                   Json/Letters, Words, Slots, Literals, Brackets, Document, Terminated, RoundTrip: a
--                   serialized document, read back.
--   Linebuf         src/libmowgli/linebuf/linebuf.c: lines on a connection; the calls to others are
--                   a list of events. Linebuf/Lines: the scan for lines. Linebuf/Input, Output:
--                   the two directions.
--   Timers          src/libmowgli/eventloop/timer.c: the timers of an event loop. Timers/Turn, Due: a
--                   run. Timers/Freed: timers that destroy others. Timers/Earliest, Sleep: the next
--                   deadline.
--
-- How state is shown: a struct is a record, an operation is a function from the state before to
-- the state after, and `none` is a fault (a read or write outside its block, a NULL read, a
-- failed `soft_assert`, an undefined shift, or no fuel left). A block of memory is the list of
-- its cells. An element of a dictionary and a node of a list are named by their address.
--
-- Fuel: `retune_loop` has one unit more than the tree has elements, and each turn goes down by
-- one at least. `double_until` has 32 units, the bits of the C type. The loops over lists are
-- given one unit more than the list is long. The draw from a range may draw for ever: its
-- theorem says how much fuel a given sequence of draws needs. The stack of the parser has
-- `LL_STACK_SIZE` entries, a push on a full one is a fault, and a proof may also take one that
-- is never full. The loop of `ll_parse` has five units, which is more than the expansions that
-- a symbol needs in front of a token, and `lex_char` is called three times at most for a
-- character. The run of the timers has one unit for each timer.
--
-- Assumed: allocation succeeds, and a fresh element has an address that is not in use. The
-- guards `return_if_fail (p != NULL)` on the arguments are not modelled where the model's type
-- has no NULL. `qsort`, `strtod`, the text of a double, what a connection reads and takes, and
-- what a timer function does to its loop are parameters; a double is the number of its bit
-- pattern. Sizes are natural numbers; where a `size_t` may wrap in mowgli_string.c or list.c
-- the wrap is written out. The results of a comparator fit in an `int`, and a dictionary has
-- fewer than 2 ^ 32 elements. Two blocks do not overlap.
--
-- Not modelled: `mowgli_list_sort`, destruction, input and output, the event loops but for
-- their timers, threads, processes, modules, the resolver, attaching a line buffer to an event
-- loop, callbacks that call a line buffer back, the other parsers in ext, the reference counts
-- of JSON values, Patricia tries (an object's members are the list that its trie stands for),
-- and the object system.
pub mod Base
pub mod Memory
pub mod Strings
pub mod Index
pub mod Dictionary
pub mod Nodes
pub mod Queue
pub mod Random
pub mod Pool
pub mod Bitvector
pub mod Json
pub mod Linebuf
pub mod Timers
