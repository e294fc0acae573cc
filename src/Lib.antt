-- ===== src/Lib.antt =====
-- Obelix, a general-purpose scripting language in C: the containers of its core library, and
-- scanners of its lexer.
--
-- The interpreter reads a script with a lexer and an LL(1) parser driven by a grammar, compiles it
-- to the instructions of a stack machine and runs them. All of these parts keep their data in the
-- containers of src/lib: the growable array, the hash table, and the evaluation stack that is an
-- array with bookmarks and counters. This library models these, the set, which is a dictionary
-- without values, the doubly linked list, the string buffer, the dotted names, and the helpers on
-- strings, and with them the part of the lexer that reads numbers, identifiers and space.
--
-- Array.antt is src/lib/array.c with the inline functions of include/array.h. `Array` holds the
-- slots, capacity, size, cursor and reference count of `array_t`; `set`, `get`, `pop`, `remove`,
-- `resize` are `array_set`, `array_get`, `array_pop`, `array_remove`, `_array_resize`. Bulk has
-- `array_reduce`, `array_add_all`, `array_find`, `array_clear`, `array_copy`, `array_free`, Slice
-- has `array_slice`, and Cursor the iteration. An array is seen as the sequence `items` of its
-- elements (Growth, Contents), which the lemmas of Access, Removal, Shift and Lifo speak of.
-- Overflow is about the `int`s of `_array_resize`.
--
-- Dict.antt is src/lib/dict.c. `Dict`, `Bucket` and `Entry` are `dict_t`, `bucket_t` and
-- `dictentry_t`; `put`, `get`, `has_key`, `remove`, `pop` and `rehash` are the functions of these
-- names, with the helpers on buckets that they call. Walk has `dict_reduce`, `dict_keys`,
-- `dict_values` and `dict_clear`, Iterator the forward iterator. A dictionary is seen as the map
-- `view` (Placement), which reads the bucket that a key's hash leads to; Chains and Gaps are about
-- one bucket, Rehash about the redistribution, and Valid holds the invariant `IsValid`.
-- KeyType.antt is the interface to the keys: an equality and a hash that respects it, which the C
-- code takes as function pointers in `type_t` (include/core.h).
--
-- DataStack.antt is src/lib/datastack.c, on top of Array: `push`, `pop`, `peek`, `find` and
-- `clear` (Access), bookmarks and `datastack_rollup` (Rollup, Frames), and the counters
-- (Counters). The deserialization of an element, a dispatch on its type, is an argument of the
-- rollup.
--
-- Set.antt is src/lib/set.c, on top of Dict: the operations on one element (Members), union,
-- intersection and difference (Algebra, with Sifting), and the comparisons (Relations). A clone of
-- a set compares its elements by address; that comparison is an argument, `identity`.
--
-- Name.antt is src/lib/name.c, on top of Array: the components of a dotted name, how they grow,
-- and the head and the tail (Parts).
--
-- LinkedList.antt is src/lib/list.c. A `Heap` holds the fields of every `listnode_t`, whether it
-- is allocated, and a log of the free function; `LinkedList` is `list_t`, whose sentinels are two
-- addresses. Following NULL or a freed node ends in `none`. Chains, Updates and Paths are about
-- addresses along the fields `next` and `prev`; Linked is the invariant, and Inserts, Bypasses and
-- Places are the two edits of list.c and what stands around them. Ends and Taking have both ends
-- of a list, Reads `list_get`, Iterator the `li_` functions, Walks and Clears the loops of
-- `list_reduce` and `list_clear`, Processor the `lp_` functions.
--
-- Str.antt is src/lib/str.c: `Str` is `str_t` with the bytes of its buffer. A buffer is seen as
-- its text with zeros behind it (Contents). Growth is `_str_expand`, Appends, Cuts (with Moves),
-- Pieces and Edits are the functions that change or copy a buffer, Reading the read position,
-- Search and Backwards look for one string in another, and Joins, Splits and Methods are on
-- several strings.
--
-- Lexer.antt is src/lexer/lexer.c, the part that the scanners use, for a lexer that reads a string
-- buffer; the buffers of the lexer stand there as the texts that Str.antt shows them to hold.
-- Number is the state machine of src/lexer/number.c, Scans how its loop ends, Integers and
-- LeadingZeros which tokens runs of digits give; Identifier is src/lexer/identifier.c, and Words
-- which tokens it gives; Whitespace is src/lexer/whitespace.c, and Blanks what it makes of blanks.
--
-- Strutils.antt is src/lib/strutils.c: trimming (Trims), escaping (Escapes) and the comparison
-- that ignores case (Compare), on strings as lists of character codes.
--
-- Prelude.antt passes the shared names on, with lists measured by native numbers (Prelude/Lists),
-- Boolean tests (Prelude/Tests) and the integers of C indices (Prelude/Int). Tests.antt has the
-- concrete inputs.
--
-- A pointer to a stored element is an `Option`, `none` for NULL. The calls of free functions are
-- recorded in logs. Sizes and indices are unbounded: the C code keeps them in `int`, so the model
-- stands for containers of fewer than 2 ^ 31 elements, for arrays of at most 2 ^ 30 slots, beyond
-- which the doubling of `_array_resize` overflows (Array/Overflow has that loop on 32-bit numbers),
-- and for dictionaries below 2 ^ 24 entries, where the load factor is exact in single precision. A
-- character is a number below 256; a byte from 128 on is a negative `int` where it is read with
-- `str_peek` or `str_at`, and the lexer leaves it out of a token. A search in a dictionary without
-- buckets divides by 0 (`Dict.checked_find`). Memory does not run out: the allocators of
-- src/lib/core.c end the process. The doubling loop of `_array_resize` has the requested capacity
-- as its fuel, which is enough since the capacity at least doubles from 1; the walk of a client
-- over a dictionary has one round more than there are entries, the loops along a list one round
-- more than there are nodes, the loop of `_str_expand` as many rounds as the length that is asked
-- for, since 1.6 times a size from 2 on is at least 1 more, and `str_split` one round more than
-- there are characters, and so have the loops of the scanners; all other loops are structural. The
-- product with 1.6 is `* 8 / 5`, which is exact for sizes below 2 ^ 50.
--
-- Not modelled: the printing, hashing and comparing of containers, `array_split` and the joins,
-- the backward iterator, `dict_put_all` and `dict_copy`, the strings that names keep and their
-- comparisons, `list_join`, `list_split`, `str_replace`, `str_format` and the escapes of str.c,
-- streams into string buffers; and the parts above these containers: the object model, the other
-- scanners and the match loop of the lexer, grammar, parser, virtual machine, network, remote
-- calls, databases and programs.
pub mod Prelude
pub mod Array
pub mod KeyType
pub mod Dict
pub mod DataStack
pub mod Set
pub mod LinkedList
pub mod Strutils
pub mod Str
pub mod Lexer
pub mod Name
mod Tests
