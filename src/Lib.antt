-- ===== src/Lib.antt =====
-- A C program that runs a mixture-of-experts language model with its experts and embedding rows
-- streamed from disk.
--
-- The cache (c/src/cache.c) holds what was read, under a byte budget. It is a hash table with
-- linear probing and a list in the order of use. The tokenizer (c/src/tokenizer.c) reads its
-- vocabulary into hash tables of the same kind, splits a text and merges its bytes to token ids.
-- The tensors of the model's files are indexed by name (c/src/safetensors.c), and rows of them are read
-- by the workers of a pool (c/src/reader.c), or for Python by native/rowio.c.
--
--   Base   Boolean tests, lists and bits on the native numbers
--   Probe  the linear probing of the hash tables: find, insert, rehash, and remove with the shift
--          of what lies behind; its theorems hold for any entries and hash
--   Cache  c/src/cache.c: `Cache` is `cache_t`, and each operation is the function of the source
--          without its prefix `cache_`; Cache.Victim has pick_victim, Cache.Ops cache_put
--          with its loops. Cache.Valid is the invariant.
--   Chat   c/src/chat.c: append and chat_render, with the texts that it appends as a list
--   Json   c/src/json.c: jparse_string as parse_string, jparse_value as parse_value with a function
--          for each of its loops; isspace and strtod of libc are parameters
--   Ngram  c/src/ngram.c: each function without its prefix `ngram_`, an inner loop as a function of
--          its own
--   Reader c/src/reader.c: Reader.Pool is `io_pool`, whose three locked sections are submit,
--          next_job and finish; Reader.Pool.History has their interleavings; Reader.Rows has
--          read_rows_impl, with a function for each of its loops
--   Rowio  native/rowio.c, which reads rows for Python: each function by its name, read_rows in
--          parts; pread, malloc, qsort and the conversion of numbers are parameters
--   Pread  the loop around pread that reads a stretch of a file, and what is assumed of pread
--   Gather the copy of rows from a block to their places, which both readers share
--   Safetensors  c/src/safetensors.c: the search and the reads in Safetensors, parse_file and
--          st_index_open in Safetensors.Header, with a function for each loop; Safetensors.Index and
--          Opened have the invariant of the index, Safetensors.Reads the reads; a job of rows is
--          read_rows_impl, as the worker of the pool runs it
--   Table  the two hash maps of c/src/tokenizer.c, vocab_map and merges_map, which differ in the key
--          alone: `init`, `get` and `put` are vmap_init, vmap_get and vmap_put and their twins
--   Tokenizer  c/src/tokenizer.c: Tokenizer.Vocab has the maps with their keys, Form the byte
--          alphabet, Bpe encode_chunk and tokenizer_decode, Split pretoken_end, Text
--          tokenizer_encode, Scan the functions `js_` and find_key, Load parse_added_tokens and
--          tokenizer_load; the functions of ICU, tolower, isspace and strtol are parameters
--
-- A loop of the source that has no counter has fuel: a probe and a shift have one unit for each
-- slot, which is enough since a valid table has a free slot, and the eviction loop one more than
-- there are entries, since each round drops one. A ring is copied with its capacity as fuel and
-- grows at most once. The trial division has the number itself. The search for the next prime has
-- its fuel as an argument. A JSON string has one unit for each byte, and a value four for each byte
-- and four more. A buffer of a prompt that grows has one unit for each byte that it shall hold. The
-- merge loop of encode_chunk has the square of its length and one more, since a round merges or
-- drops a rank. The loops of tokenizer_encode have their rounds as an argument, since they need not
-- end. The loops over the runs of rows have one unit for each request and one more; those of the
-- calls of pread have their rounds as an argument, which are enough when there is one for each byte
-- and for each call that may be interrupted before it. The binary search has one unit for each
-- tensor. The loops of the loader have one unit for each byte and one more. Sums of `uint64_t` wrap
-- at 2 ^ 64.
--
-- The mutex makes each operation of the cache one step. The allocations of util.h do not fail (they
-- abort), and each returns a new pointer; malloc and calloc are parameters that may give none. A `double` score is its bit pattern, on which the order
-- of nonnegative numbers is that of the patterns; its arithmetic is a parameter.
--
-- A token id in tokenizer.json of 2 ^ 31 or more is outside of the model of the loader, which
-- says so in its result. The ints of the pool and the 64-bit sums of the geometry of the n-grams end
-- in a result of their own where they overflow.
--
-- The files of the index do not change while they are read, and their list is taken as given.
--
-- Not modelled: the flag of a job and the threads of c/src/reader.c, the reading of tokenizer.json
-- as a file, the functions that free memory, the other files of c/src and
-- native, and the Python of src and tests, from which the C program was ported.
pub mod Base
pub mod Cache
pub mod Chat
pub mod Gather
pub mod Json
pub mod Ngram
pub mod Pread
pub mod Probe
pub mod Reader
pub mod Rowio
pub mod Safetensors
pub mod Table
pub mod Tokenizer
