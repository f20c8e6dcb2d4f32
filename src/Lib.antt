-- ===== src/Lib.antt =====
-- posixutils-rs: the POSIX utilities in Rust. This library models parts of it that compute, and proves
-- what makes them correct.
--
-- The parts and their files:
--   - i18n/iconv_lib: the converters of `iconv`. Each decoder (`to_ucs4`) and encoder (`from_ucs4`) is an
--     iterator over a closure with its own state, and `iconv` puts a decoder in front of an encoder.
--     Iconv/Stream has the loop: a round of the closure emits items and goes on, ends the stream (`None`),
--     ends the process (`exit(1)`), or panics. Iconv/Words has the casts, the shifts and the read-ahead
--     buffer. Iconv/Utf8, Iconv/Utf16, Iconv/Utf32 and Iconv/Ascii are utf_8.rs, utf_16.rs, utf_32.rs and
--     ascii.rs; `decode_round` and `encode_round` are the bodies of the closures, and the child modules
--     have the proofs. `omit_invalid` is -c, `suppress_error` is -s.
--   - awk/src/interpreter/array.rs: Awk/Array has the fields of `Array` and one function per method;
--     `set_value` is the method `set`. A key iterator is its index. A panic is `none`, or `panic` where a
--     method also has an error. Awk/KeyMap is the hash map of std, as far as the array uses it.
--   - plib/src/modestr.rs: Plib/ModeStr has the data of mode strings and `parse`, whose `while` on one
--     character is `turns` and whose `for` is `chars`; Plib/ModeStr/Mutate has `mutate`. A character is its
--     code point, and an octal number is read as `from_str_radix` of std documents. The bits of libc are
--     the numbers that POSIX gives to them.
--   - calc/expr.rs: Calc/Expr/Token has the tokens, Calc/Expr/Ops the operations on two of them, and
--     Calc/Expr/Eval `eval_expression`, whose `round` is the body of its loop; the recursion and the next
--     round are both calls of `eval`. Calc/Expr/Tree is a reference for it: expressions as trees.
--   - misc/test.rs: Misc/Test has the operators, Misc/Test/Main the dispatch on them and on the number of
--     arguments. An `Evaluation` is the value with the message, or the panic of `unreachable!()`.
--   - xform/uuencode.rs and xform/uudecode.rs: Xform/Uuencode and Xform/Uudecode, from the bytes of a file
--     to those that are written. What `uudecode` reads is what `uuencode` writes.
--   - text/fold.rs: Text/Fold has the fields of `OutputState` and one function for each level of the loops
--     of `fold_file`; the chunks in which a file is read play no part, since the state outlives them.
--   - text/expand.rs: Text/Expand has `parse_tablist`, the column with the output, and one function for each
--     level of the loops of `expand_file`.
--   - text/unexpand.rs: Text/Unexpand has the two conversions of a line and the loop over the lines; Text/Unexpand/Expanded
--     composes it with Text/Expand.
--   - process/xargs.rs: Process/Xargs has `ParseState` and its methods, one function each;
--     Process/Xargs/Spawning has the loops of `read_and_spawn`, whose result is the list of the command
--     lines that are run. The child modules are about the division of the
--     input into reads (Parsing, Nulls), words and quotes (Quoting), batches (Batches, Limits), the loops
--     (Ending, Reading, Invocations), and loops without an end (Endless).
--   - xform/crc32.rs, xform/cksum.rs: Xform/Crc32 has `update`, `finalize` and the loop of `cksum_file`;
--     Xform/Crc32/Table is the table.
--   - file/split.rs: File/Split has `Suffix` and `OutputState` with their methods, and the loops on bytes and
--     on lines. A file is its name and content.
--   - awk/src/interpreter/format.rs: Awk/Format has the conversion specifiers and the formats of integers
--     and strings. The digits in a buffer are the list of those that have been written.
--   - text/uniq.rs: Text/Uniq has `process_line`, `output_result` and the loop of `uniq` on the lines of its
--     input, from the last line and its count on.
--   - text/comm.rs: Text/Comm has the loop of `comm_file` with the reader, the buffer and the flag of
--     each file as a `Side`, the calls of `line_out` that it makes, and what they print.
--   - datetime/cal.rs: Datetime/Cal has the printing of a month and a year, as the list of what is printed,
--     and the arguments of `main`.
-- The parts stand beside one another: they share the modules Prelude and Std, and no part calls another
-- but `uudecode`, which reads what `uuencode` writes. Std has the functions of Rust's std on strings,
-- vectors and numbers that the parts use, as std documents them.
--
-- Numbers: a byte, a code point and a word are naturals. `<<` keeps 32 bits, `as u8` and `as u16` keep 8
-- and 16, `u16` sums wrap, and `!` is taken on 32 bits. The length of a vector and the counters of an array
-- are naturals without bound: they count elements in memory. The integers of `expr` and `test` are those of
-- Std/Integers, and an `i64` is one in its range. Whether a build checks overflow is the argument `checked`
-- of `expr` and `uudecode`: a result that does not fit panics, or wraps.
--
-- Fuel: a converter runs for one round more than its input has items. Every round that goes on takes an
-- item at least, so this is enough. The iteration over an array has one call more than the array has slots;
-- `comm` goes on for one round more than the files have lines, and the loop over the days of a month for
-- one more than the month has days. `parse` looks at a character four times at most.
-- `eval_expression` calls itself for shorter sequences of tokens, and the inner loop of `fold_file` goes on
-- with a shorter line: each has one call more than the length. The spaces of `expand` for a tab are fewer
-- than the width, or than the column of the next stop.
--
-- The loop `while state.full()` of xargs has one round more than there are arguments: a round removes an
-- argument or changes nothing. A round of `output_bytes` takes a byte if the boundary is not 0, and a `usize`
-- has 8 bytes for `finalize`.
--
-- Parameters: `String::from_utf8_lossy`, the starting of the utility of `xargs` and the decimal point of the
-- locale are arguments. The byteorder crate is the record
-- `ByteOrder` of its operations and laws, which `plain_order` fills, and the base64 crate is the record
-- `Base64`, which `letter_pairs` fills. The regex crate is a
-- function from a pattern to a search, and the system calls of `test` are the record `System`. The byte
-- order of the machine and the clock are arguments. The values of awk are a type argument.
--
-- Not modelled: errors of reading and writing; the time at which an iterator is asked for its items, so
-- that messages are not ordered against items; the text of the messages; the translation of messages by
-- gettext; the formats of floating-point numbers of awk, which stand on those of std; the parsing of the
-- option -b of `split`; the rest of the repository, which calls the system or other crates for the most part.
pub mod Awk
pub mod Calc
pub mod Datetime
pub mod File
pub mod Iconv
pub mod Misc
pub mod Plib
pub mod Prelude
pub mod Process
pub mod Std
pub mod Text
pub mod Xform
