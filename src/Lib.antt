-- ===== src/Lib.antt =====
-- Verification of libplist, a C library that reads and writes property lists.
--
-- The parts modelled, the file that models each, and the source:
--   Base64       src/base64.c       the encoder and the tolerant decoder
--   HashTable    src/hashtable.c    a chained table over a caller's hash and comparison
--   PtrArray     src/ptrarray.c     a growing array of pointers
--   ByteArray    src/bytearray.c    a growing byte buffer or a stream
--   Bplist       src/bplist.c       the binary format: Word (byte order), Node (src/plist.h),
--                                   Utf16 (conversions of text), Scalar (nodes without children),
--                                   Parse (containers, dispatch), Parse/Document (the file),
--                                   Serialize (the list of the objects to write;
--                                   `plist_data_compare` and `plist_type` of src/plist.c and
--                                   include/plist/plist.h), Write (the writers of single objects)
--                                   and Write/File (`plist_to_bin`); Node/New has the data of the
--                                   nodes that the functions `plist_new_*` of src/plist.c make
--   Plist        src/plist.c        Nodes (the store of nodes), Array and Dict (the operations on
--                                   arrays and dictionaries), Key (the keys of the tables) and
--                                   Values (numbers: setters, getters, comparisons)
--   Xplist       src/xplist.c       the text of strings and keys: escaping and entities, and Scan
--                                   (the parts of the text of an element)
--   Jplist       src/jplist.c       the text of strings and numbers, Primitive (numbers and words),
--                                   and Parse (the parsers of tokens and `plist_from_json`)
--   Oplist       src/oplist.c       data, and the white space and comments between its bytes
--   Escaping     src/xplist.c and src/jplist.c: the loop that text is written with
--   Run          results of code that may access memory outside a block
--   Prelude      numbers, lists and tests that the others share
--   Examples     runs of the models, and the theorems at concrete inputs
--
-- How they interact: the parser keeps the indices of the nodes that it is inside of in a pointer
-- array and refuses an index that is among them. The writer enters each node in a hash table that
-- compares nodes by their data, with `plist_data_hash` and `plist_data_compare`, and those that it
-- is inside of in one that compares addresses; it lists them in a pointer array, and writes them to
-- a byte array with the offset of each, a table of the offsets, and the trailer, from which the
-- parser starts. The writers are modelled on the bytes that the array holds, to which
-- `byte_array_append` adds. The operations on arrays and dictionaries keep the children of a node
-- in step with the pointer array or the hash table that finds them; they use the tree library
-- through the calls of `NodeLib`, whose documented behaviour is `IsNodeLib`. The text of an XML
-- element is split into parts, each of which is unescaped and copied.
--
-- A C function `f` is the definition `f`; a loop or a branch that has a definition of its own is
-- named after what it does, and says so above it. An array of bytes is a list of numbers, a
-- pointer into one an offset, an unsigned number wraps by `% 2 ^ w`, and NULL is `none`. Code
-- that reads or writes memory returns `fault` (or `none`, as its comment says) where it would
-- leave its block. Memory is taken to be available: no `malloc` returns NULL. The machine is
-- little-endian.
--
-- `parse_bin_node_at_index` calls itself through the parsers of containers. Its fuel bounds the
-- nesting; 514 is enough, since the code gives up below 512 levels. The same holds for
-- `serialize_plist`, which calls itself through the loop over the children. The loop of
-- `get_text_parts` has as much fuel as the text has characters, of which each turn takes some. The
-- parsers of JSON tokens have fuel for the nesting too, and the loop around the tokenizer has a round
-- for each character of the text, more than it takes tokens, 16 at a time.
--
-- Not modelled: libcnary/, src/jsmn.c and src/time64.c are copies of separate projects. The calls
-- of libcnary are the fields of the records `Tree` (the parser) and `NodeLib` (arrays and
-- dictionaries), those of the tokenizer are the fields of `Jsmn`; `plist_free_children` only
-- releases memory, and an `assert` is taken to be compiled out. The conversion of a float to a
-- double and back are parameters `widen` and `narrow`, the arithmetic of doubles is the record
-- `Doubles`, and `strtoull` and `fwrite` are parameters too. Of `plist_to_bin` the estimate of the size is not
-- modelled, which only chooses the first capacity of the buffer; of src/plist.c the copying, and
-- the accessors and comparisons of texts, data, reals and dates; of src/xplist.c the rest of the
-- scanner, the parser of elements, numbers and dates; and of src/jplist.c the writer, but for the
-- text of strings. The JSON parser puts nodes into containers by the fields of `Containers`,
-- without the lookup caches of src/plist.c. All of the OpenStep format but data, the printers, the
-- bindings and the tool are not modelled here.
pub mod Prelude
pub mod Base64
pub mod HashTable
pub mod PtrArray
pub mod ByteArray
pub mod Run
pub mod Bplist
pub mod Plist
pub mod Escaping
pub mod Xplist
pub mod Jplist
pub mod Oplist
mod Examples
