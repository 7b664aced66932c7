-- ===== src/Lib.antt =====
-- The support library of bksupport: growing arrays of lines, the text functions on them, shell
-- words, the chained hash table, web encoding and query strings, and helpers for strings and
-- paths.
--
-- Base      numbers, Booleans, lists, the outcome `Run` of a C function (ok, or a fault: a failed
--          assert, exit(1), an access outside an object, a bound on rounds that was reached)
-- Cells     the memory behind an array, each access checked against its size
-- Lines     lines/lines.c and lines/lines.h: the header word with the length and the size,
--          _growArray_int, growArray, addArray, truncArray, catArray, insertArrayN,
--          removeArrayN, reverseLines and reverseArray
-- LineText  lines/lines.c: findLine, sameLines, joinLines, splitLine
-- LineEdit  lines/lines.c: removeLine and uniqLines
-- LineWalk  lines/lines.c: parallelLines
-- Shell     lines/lines.c: shellquote and shellSplit
-- WebEncode utils/webencode.c: webencode and webdecode
-- HashText  hash/hash_tostr.c: hash_fromStr
-- MemHash   hash/memhash.c: the chained hash table; hash/hash.h: EACH_HASH
-- Strings   utils/strcnt.c, utils/trim.c, utils/str_subst.c
-- Paths     utils/dirname.c and utils/concat_path.c
-- Pq        utils/pq.c: the priority queues
-- U32Hash   hash/u32hash.c: the table with open addressing
-- DataBlock lines/data.c: the growing block of bytes
-- Fmem      utils/fmem.c: files in memory
-- Getopt    utils/getopt.c: the command-line scanner
-- FopenCrc  utils/fopen_crc.c: files in blocks with checksums and their exclusive or
-- Glob      utils/glob.c: is_glob, match_one and match_globs
-- CleanPath utils/cleanpath.c: cleanPath
-- Tests     the theorems at concrete inputs, and runs
--
-- The parts meet at the arrays: joinLines and splitLine read and build arrays of strings, and
-- shellSplit returns one. hash_fromStr reads what webencode writes. An array of Lines is a
-- header word and its cells; the other parts use the list of items that the theorems on Lines
-- show such an array to stand for. A memhash is shown to be a map from keys to values, whatever
-- crc32c gives; hash_fromStr fills a hash that it only knows by its store. A file in memory
-- keeps its text in a growing block. getopt is a step on the scanner's state, and the calls in a
-- row are a relation on it. The files of fopen_crc have the side that writes, the side that
-- reads, and the scan that finds a damaged block; the format between them is stated on its own.
--
-- A C string is the list of its bytes without the terminating null, but in Glob, where the code
-- can read past it, with the null; a buffer with a length is the list of its bytes. Numbers are
-- natural numbers; the header word of an array, the size of the buffer of shellSplit, the ints
-- of the choice of a block size and of the scan for a damaged block, and the sizes of growing
-- blocks keep their 32 bits written out. Allocation succeeds. The constant MAXPATH is an
-- argument.
--
-- Loops run on fuel, and running out of it is a fault of its own, so each theorem that a
-- function returns also says that the fuel is enough. Doubling of an array takes at most 33
-- rounds; the other loops take one more round than there are bytes or items left. The size of a
-- block is chosen in 11 rounds, and reading one block calls itself at most once.
--
-- Parameters: crc32c of the two hash tables, sscanf with its behaviour on one and two
-- hexadecimal digits (HexScan), the hash that hash_fromStr fills, the sort of the lines of
-- uniqLines, the comparison of the items of a queue, and the comparison and the function that
-- parallelLines calls. For the files of fopen_crc: crc32c, which goes on from the value for the
-- bytes before and has 32 bits (Checksum), and the scan of the header (HeaderScan). For
-- patterns: tolower, which keeps the null below the other bytes, and the variable BK_GLOB_EQUAL.
-- The size of a pointer is an argument of the layout of a node.
--
-- Not modelled: system calls, processes, sockets and the Windows layer; utils/lines.c, an older
-- copy of lines/lines.c; the checksum of utils/crc32c.c; memhash_free, and the copy of the last
-- key and value in the header of a memhash; utils/base64.c, a copy of other code; the long
-- values of u32hash; the print of a usage line by getopt, which only exits here; stdio itself,
-- over the files in memory; relpath; addLine and the sorts of lines/lines.c. str_subst is
-- modelled with an output buffer apart from the string, not with its own buffer of MAXLINE bytes
-- nor in place; of fopen_crc the mode r+, seeks but to the start, and the variables of the
-- environment; hash_toStr, whose stream writes over its own pointer.
pub mod Base
pub mod Cells
pub mod Lines
pub mod LineText
pub mod Shell
pub mod WebEncode
pub mod HashText
pub mod MemHash
pub mod Strings
pub mod Paths
pub mod Pq
pub mod U32Hash
pub mod DataBlock
pub mod Fmem
pub mod Getopt
pub mod LineEdit
pub mod LineWalk
pub mod FopenCrc
pub mod Glob
pub mod CleanPath
mod Tests
