-- ===== src/Lib.antt =====
-- The IMS Open Corpus Workbench (CWB): data structures of the corpus library (cl/) and of the
-- query processor (cqp/).
--
-- The corpus library stores annotated texts as sequences of integers. Words are numbered by a
-- lexicon hash while a corpus is encoded; the sequences are then compressed and written bit by
-- bit. The query processor evaluates a query to a list of matches, and combines such lists by
-- the operations on sets. Integer and string lists and bit fields serve both. The components
-- modelled here are data structures that the rest of the program uses through their functions.
-- Golomb codes go through the bit streams, and the query server, which sends results to remote
-- clients, uses the hash function of the lexicon.
--
-- Bitfield: cl/bitfields.c and cl/bitfields.h. One function per C function, with its name. A
--   cell is a byte (BFBaseType), a field the record of its sizes, its count and its cells; Update
--   has the operations that write, Compare the two comparisons, Cells and Count the bits of a cell
--   and their number. A negative offset, which the code does not refuse, addresses memory
--   before the field or shifts by a negative number, and gives none.
-- AutoList: cl/list.c and cl/list.h. cl_int_list and cl_string_list are the same code at two
--   types, so each function is written once over the blank element, and the C names are its
--   instances. Elements are ℤ, or addresses with none for NULL. Indices and sizes are ints: a sum
--   that overflows gives none.
-- LexHash: cl/lexhash.c, and the entries of cl/cl.h. Hashing has is_prime, find_prime,
--   hash_string and strcmp; Chain the loops along a bucket and over the table; Ops the exported
--   functions. A chain of linked entries is a list, a pointer into a chain the list from there on.
--   The arithmetic on double that decides when a table grows is a parameter, the record Double;
--   IsLawful says what is relied on: a conversion from an integer and back gives the integer, and
--   a number not greater than an integer is converted to one that is not. find_prime runs on the
--   ints from its argument up to 2^31 as fuel, is_prime on its argument, the iterator on the
--   buckets that are left.
-- BitIo: cl/bitio.c and cl/bitio.h. File has the functions on BFile, Stream those on BStream,
--   Word BFreadWord, Buffer what they share, Memory compares the two readers; Write, WriteWord,
--   Flush and Read have what the functions do to the bits, Extends what they add to the file. A
--   FILE is the bytes to read, the bytes written and the number of bytes for which fwrite succeeds.
--   A position is an off_t, of which BFposition and BSposition return the low 32 bits as an int. Bits has bit strings, the most
--   significant bit first, in which the contents of a stream are described.
-- Compression: the Golomb codes of cl/compression.c, on the streams of BitIo. Golomb has the
--   writer and the reader; the C code has the reader twice, for the two kinds of stream, here it
--   is written once over what it uses of a stream, the record BitSource, whose laws (IsBitSource,
--   of Code) Sources fills for both. ceil(log2(b)) of the C library is a parameter; IsCeilLog2
--   says that it is the least exponent. The loop over the unary part runs on the bits that are
--   left as fuel. RoundTrip is about the reader, Write about the writer, ThroughFile about both,
--   Ends about the end of the loop. Divisors are positive and at most 2^30, above which the C
--   shift overflows. The quotient of logarithms in compute_ba is a parameter.
-- Matchlist: cqp/matchlist.c and cqp/matchlist.h. Rows has the loops over the tables, Setop the
--   operations; the parallel arrays of a list are a list of rows and flags for the arrays that are
--   NULL. Setop calls itself for Identity and Complement, which is written out, and for the other
--   of Union and Intersection on lists that are not inverted; the depth of the latter calls, at
--   most two, is its fuel, and the theorems hold for every fuel from there on. What the corpus
--   says of its size is a parameter.
-- Corpus: structural and alignment attributes, from cl/cdaccess.c. Search has get_previous_mark and
--   get_extended_alignment, with the C code's own limit of 100000 rounds as fuel; Struc the
--   functions that use the first, Align those of alignments. An attribute is its type and its
--   data, or none where the data cannot be loaded; data and positions are natural numbers.
--   Regions says what regions one behind the other are; Found is about the searches, StrucLaws and
--   AlignLaws about the functions, StrucErrors about attributes that they refuse.
-- Index: positional attributes, from cl/cdaccess.c, and their compression, from
--   utils/cwb-compress-rdx.c. Positional has sizes and frequencies, Lookup cl_id2cpos_oldstyle,
--   Restrict its loops over the ranges of a restrictor list, Streams the position streams, Compress
--   compress_reversed_index. An attribute is the record of its components, each with its ints after
--   ntohl, or none where it cannot be loaded. Entry and Found say where a list of positions comes
--   from, plain or compressed, CheckId what the checks have found out; Ranges is about restrictor
--   lists, Reading and Chunks about streams, Gaps, Elements and Rounds about what is written, one
--   step of the loops each, WriteRead and RoundTrip about reading it again. A gap between positions
--   is below 2^31, and a restrictor list of size 0 is the empty list. The offset of a code in the
--   compressed index has 32 bits; cl_new_stream reads it as a signed int, cl_id2cpos_oldstyle as an
--   unsigned one.
-- Sequence: cl_cpos2id of cl/cdaccess.c, the item at a position. Decode has the function, with the
--   block of items that an attribute keeps as a state, Codes says what a Huffman code is and that
--   its bits are decoded, Items the same of a list, Blocks what the kept block holds, Answers what
--   calls return. The loop over the bits of a code goes along the table of least codes.
-- Cqi: CQi/server.c and the tags of CQi/cqi.h. Send and Receive have the functions that write
--   and read values, with their names; Encoding and Values the bytes of a value, RoundTrip what
--   one side reads of what the other sends; Typed gives each tag the type of its values, and
--   Messages is about values behind their tags. The connection is a Sink, the bytes sent and the
--   number of bytes that it still takes, or the bytes to read. Names checks and splits the names
--   of corpora, attributes and subcorpora, with the laws in Specs. AttHash has the table of
--   attributes, which uses hash_string and find_prime of LexHash; AttHashLaws, AttHashStays and
--   AttHashRoom are about its slots, AttLookup about cqi_lookup_attribute. How corpora and
--   attributes are opened is a parameter.
-- Base: what the modules share: Boolean tests, arrays as lists, integers of C, bytes and bits.
-- The Tests module of each component has concrete inputs.
--
-- A result of none stands for a failed assertion or an access outside an array. Allocation
-- succeeds, as cl_malloc exits the program otherwise; deallocation is not modelled, nor are the
-- payload and the cleanup callback of lexicon entries, the qsort calls of lists, and printing.
-- The rest of the program (other access to the corpus, the query language, the commands of the
-- server and the tools) is not modelled.
pub mod Base
pub mod Bitfield
pub mod AutoList
pub mod LexHash
pub mod BitIo
pub mod Matchlist
pub mod Cqi
pub mod Compression
pub mod Corpus
pub mod Index
pub mod Sequence
