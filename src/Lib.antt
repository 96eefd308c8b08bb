-- ===== src/Lib.antt =====
-- The C runtime of Roadsend PHP, a compiler from PHP to native code.
--
-- The compiler and most of the runtime are written in Scheme; what is modelled here is their own
-- C code under runtime/ and webconnect/. Each part is a module with the name of its file or its
-- purpose, the state as a record, one definition for each function, loop or macro, and child modules for the
-- proofs; Tests modules hold runs on concrete inputs.
--
--   Base     numbers, lists, words with wrap-around, and the signed integers of C
--   Apache   webconnect/apache1/mod_pcc.c: pcc_create_per_dir, pcc_merge_per_dir and the directives; in
--            Exts, Merge and Merge/Order what they make of the configuration; in Lookup
--            match_extension, try_file_in_lib and check_for_webapp; in Handler general_handler; in
--            Mounted the way of a request through all of them
--   Apache2  webconnect/apache2/mod_pcc2.c: pcc_startup, pcc_handler and general_handler, where they
--            differ from mod_pcc.c; in Dispatch the two handlers side by side
--   Sqlite   runtime/ext/sqlite/encode.c: sqlite_encode_binary, sqlite_decode_binary
--   Hash     runtime/php-hash-helper.c: is_numeric, php_string_hash_number1, php_string_hash_number
--   Crc      runtime/ext/standard/crc.c: crctab, CRC, woot_crc32
--   Math     runtime/opaque-math.c: phpadd, phpsub, phpmul, phpdiv, phpmod, phpnum_compare and the
--            conversions, re_unsigned_to_string
--   Strnatcmp runtime/ext/standard/strnatcmp.c: strnatcmp, strnatcasecmp and their helpers
--   Random   runtime/ext/standard/mt_rand.c: seedMT, reloadMT, randomMT
--   Strings  runtime/c-runtime.c: binary_strcmp, and in Search re_strstr, re_stristr, re_strpos
--   Format   runtime/pcc_snprintf.c, whole: Format has the conversions of integers, Directive the
--            flags, width and precision, Real and Cvt the digits of doubles, Fp their texts,
--            Convert and Switch the cases of the switch, Sink INS_CHAR and PAD, Interpreter
--            pcc_vformatter and pcc_snprintf
--   Files    runtime/ext/standard/c-files.c: fngets, php_fgets
--   System   runtime/ext/standard/php-system.c: php_c_system
--   Network  runtime/ext/standard/network.c: php_getmxrr, and in Lookup php_checkdnsrr,
--            php_getprotobyname, php_getservbyname, php_ip2long
--   Fcgi     webconnect/fastcgi/c-fcgi.c: pcc_fcgi_spawn
--   Sha1     runtime/ext/standard/sha1.c: SHA1Reset, SHA1Input, SHA1Result and the helpers
--
-- Conventions. A byte, a word or a long is a natural number below 2 ^ w, and each operation that
-- wraps around in C has its reduction written out; signed values are read off the pattern by
-- long_value. A buffer is the list of its bytes; what C leaves undefined (reading behind a
-- buffer, a division that traps) is none or fault. A loop is recursion on its rounds or on its
-- input. On fuel are re_unsigned_to_string, for which 65 rounds are enough for 64 bits in a radix
-- of 2 or more, the conversions of Format with 64 rounds, strnatcmp0, which takes a byte of its
-- first string in each round but the last, and the loops of php_fgets and php_c_system, which
-- take a byte or more of their stream in each.
--
-- Doubles are a parameter of Math (Math/Float.antt), a type with the operations that the code
-- uses and three laws of IEEE 754 on integers of at most 53 bits, and of Format
-- (Format/Real.antt), with laws that bound the loops over their digits.
--
-- The formatter of pcc_snprintf.c counts its output in an int, here a natural number: the two agree
-- below 2 ^ 31. The loop over the format has the length of the format as fuel. Arrays that the
-- code does not set are an argument.
--
-- Fcgi is a relation between states: the system chooses the results of fork and wait, and signals
-- are not modelled.
--
-- The searches of Strings have the length of the haystack and two more as fuel, since each round
-- reads a byte at least. Both are one definition with a function in the place of tolower. re_strpos
-- narrows the lengths and the index to int, and SHA1Input cuts the length of its string to the 32
-- bits of unsigned; both conversions are written out.
--
-- Network takes the resolver's dn_skipname, dn_expand, res_search and lookups as parameters. Names
-- in a DNS answer are bytes of which dn_skipname tells the number and dn_expand the text, where they
-- stand in this answer: a compressed name is one as well. The memory of a list starts with the byte
-- before it, where php_getmxrr writes.
--
-- In Apache, what the calls of a request give is a record, and what is done is the list of events in
-- order. strcasecmp is a parameter, and the result of stat is an argument.
--
-- memcmp is a parameter of Strings (a function and the law on its sign), and whether an allocation
-- succeeds is one of Files.
--
-- Not modelled: the Scheme code, the bindings of libraries, calls of sockets, the tables and log
-- messages of the Apache modules, the copied libraries (libwebserver, libapreq), and calls of sscanf
-- and snprintf.
pub mod Apache
pub mod Apache2
pub mod Base
pub mod Crc
pub mod Fcgi
pub mod Files
pub mod Format
pub mod Hash
pub mod Math
pub mod Network
pub mod Random
pub mod Sha1
pub mod Sqlite
pub mod Strings
pub mod Strnatcmp
pub mod System
