-- ===== src/Lib.antt =====
-- Leech keeps tables of records in step between hosts: a client commits the changes of its tables as
-- deltas in a chain of blocks, merges the deltas of several blocks, and a hub patches its copy. This
-- library models the part of it that computes, merges and applies these changes.
--
-- The files and the parts of the program:
-- - Base: names passed on, and the results of C functions. `ok` is a value, `failed` the NULL or
--   false that is returned after a logged error, `aborted` a failed assertion, and `out_of_fuel` a
--   loop that was given too few steps.
-- - Buffer: lib/buffer.c, byte strings as lists of numbers below 256. `LCH_BufferTrim`,
--   `LCH_BufferCompare` and `LCH_BufferEqual` are `trim`, `buffer_compare` and `equal`.
-- - Csv: lib/csv.c. Text holds the character class and the state of the parser, Parser
--   `ParseField`, `ParseRecord` and `ParseTable`, Composer `ComposeField`, `ComposeRecord` and
--   `LCH_CSVComposeTable`. Layout writes composed text without the buffer; Field, RoundTrip,
--   TableTrip and Total hold the proofs.
-- - Json: lib/json.c, with lib/dict.c as objects use it. Syntax holds the values, Access the
--   accessors, Equal `LCH_JsonCopy` and `LCH_JsonEqual`, and SetMinus the two differences of
--   objects from which deltas are made. Dictionary is lib/dict.c where entries have been removed.
--   Parser and Composer hold `LCH_JsonParse` and `LCH_JsonCompose` with the functions below them.
--   Fields, EqualLaws and SetMinusLaws hold the proofs on objects; Layout writes composed text
--   without the buffer, and ComposeText, Quoting, Extend, RoundTrip, ValueTrip and Total hold the
--   proofs on text; Numbers is about numbers. A `double` is a parameter `N`, its equality a
--   parameter `number_eq`, its text in the format `%f` a parameter `print`, and the C library's
--   `sscanf` a parameter `sscanf`. `Reads` of Numbers says what the round trip needs of the last
--   two.
-- - Delta: lib/delta.c. Create holds `LCH_DeltaCreate`, the accessors and the counts, and Merge
--   `LCH_DeltaMerge` with its three loops. Reference is the merge on entries alone; Same, Room and
--   Lossless say when the two agree: with at most 192 operations, three quarters of an array.
--   Cells follows one key through the loops, Loop lifts this to whole loops, Compose to the three
--   loops in a row, and Parts reads and writes the objects of a delta. Weight counts the
--   operations; Correct, Difference, Conflict and Count hold the theorems; a delta is there a
--   patch on the states of a table, functions from keys to records.
-- - CString: lib/string_lib.c, C strings as their bytes before the null byte. Split holds the
--   split at delimiters, the join and the version numbers.
-- - ListBuffer: lib/list.c, an array with its capacity. Growth is about the capacity, Reverse
--   about the reversal. The other modules use a list as a sequence.
-- - Dict: lib/dict.c, the hash table. Probing says where a search ends, Slots what stands in the
--   array, Search puts these together, Growth is about a new array, Steps about one operation at a
--   time, and Refines about a table as a map.
-- - Head: lib/head.c, with the files of a directory as an association list. Strip and Stored hold
--   the proofs.
-- - Block: lib/block.c and lib/patch.c. Create holds blocks, Store `LCH_BlockStore`, Patch
--   patches, and Identify `LCH_BlockIdFromArgument`.
-- - Table: lib/utils.c and lib/table.c. Rows holds `LCH_TableToJsonObject`, and States the states
--   of a table: the callbacks of its source are a parameter. RowLaws and Keyed hold the proofs.
--   Patch holds `LCH_TablePatch`, which makes a list of calls of the callbacks of the destination,
--   whose answers are a parameter; Protocol and Transaction are about these lists. Destination is
--   a destination that does what it is asked, and Synced is about the records that it holds behind
--   a patch.
-- - Leech: lib/leech.c. Config holds the configuration (lib/instance.c, lib/table.c) as far as it
--   is read, Merge `MergeBlocks`, and Diff `LCH_Diff` with the checksum that `Patch` verifies.
--   Carries says what the deltas of a payload do to the tables, MergeDeltas what the merge of two
--   payloads does, Chain what `MergeBlocks` makes of a chain of blocks, DiffChain what `LCH_Diff`
--   makes of it, and Missing what happens to a table that the parent lacks; Checksum is about the
--   verification. Commit holds `Commit`. TableDelta follows one table through it and CommitTables
--   all of them, StoredChain the blocks and HEAD, Consistent puts these together, and Partial is
--   about a failure, with Idle of Delta about states that are the same. Purge holds `Purge`,
--   Rebase `LCH_Rebase`, and History `LCH_History`, with HistoryChain about the blocks that it
--   records. Patch holds `Patch`, which makes a session of calls for each table, and PatchSessions
--   is about these.
-- The modules called Tests, SyncedTests, DiffTests, CommitTests, PatchTests and HistoryTests hold runs
-- on concrete inputs.
--
-- How state is kept: a function that changes an object through a pointer returns the object as it is
-- afterwards. `LCH_DeltaMerge` changes the three objects of the parent in place, which `Merging`
-- holds during the loops. It returns false on operations that cannot follow each other.
--
-- Fuel: the loops of `ParseRecord` and `ParseTable` run on fuel, which is the number of bytes left
-- where they start: each turn reads at least one byte. `Parse` runs on twice the number of bytes and
-- two: each nested call follows a bracket, and each turn but the first a comma. The loop of
-- `MergeBlocks` over the deltas of the child runs on their number, since each turn takes one away or
-- keeps one. A search in a hash table runs on its capacity, below which it meets a free place. The
-- loop of `EnsureCapacity` of lib/list.c runs on the number of elements needed, which its doubling
-- reaches. The recursions of `MergeBlocks` and `HistoryFindRecord` run on any fuel above the length
-- of the chain; the source has no bound for blocks that are their own ancestors. SHA-1, the time,
-- and the conversions of numbers are parameters.
--
-- Not modelled: memory that runs out (each allocation succeeds), freeing, log messages, the capacity
-- of buffers, the sort of lib/list.c, and the size of `size_t`. The objects of lib/json.c are lists
-- of entries in the order of insertion instead of hash tables. Not modelled are the configuration
-- file (lib/instance.c, lib/table.c), the back ends lib/leech_csv.c and lib/leech_psql.c, the input
-- and output of lib/files.c, lib/module.c and lib/logger.c, the third-party lib/sha1.c, and the
-- command line in bin/.
pub mod Base
pub mod Buffer
pub mod CString
pub mod ListBuffer
pub mod Dict
pub mod Csv
pub mod Json
pub mod Delta
pub mod Head
pub mod Block
pub mod Table
pub mod Leech
