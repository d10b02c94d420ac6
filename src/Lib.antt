-- ===== src/Lib.antt =====
-- A verification of tyto.h, a library of C helpers that are used apart from each other:
-- numbers of 1024 bits, slices and growing strings, a linked list, allocators, a parser of
-- command lines, a test harness, a queue between threads, a pool of bits, a small vector, and
-- error values. The parts call each other in two places only: a string is made of a slice
-- and gives one, and an arena stands on an allocator that its user hands over.
--
-- Base: what the parts share. C arrays are lists with native numbers as indices; `Outcome`
-- is the result of code that may fault (undefined behaviour, such as a read outside an array)
-- or that has not ended in the rounds given; Base.Bits has the laws of bit operations.
--
-- Bignum (src/ty_bignum.c, includes/ty_bignum.h): a number is the list of its 32 words of 32
-- bits, the word size 4 of the header's default. Bignum.Arith has from_int, to_int, add, sub,
-- inc, dec, cmp, is_zero, and, or, xor and assign, Bignum.Shift shl, shr and the static
-- helpers, Bignum.Mul mul and pow, Bignum.Div div, divmod, mod and isqrt. The loops over
-- words are recursion on the list or on the rounds that are left. pow, div and isqrt have
-- loops without a bound, and take fuel: as many rounds as the exponent says are enough for
-- pow, and 1026 for each loop of div. Bignum.Value is the specification, the value of a list
-- of words. The null tests (`require`) are not modelled. Bignum.Text has from_str and
-- to_str; what they use of sscanf and sprintf are parameters, with `Scans` and `Formats` as
-- what is assumed of them. In these parts a result is another object than the arguments;
-- Bignum.Places has add, sub, and, or, xor and mul on pointers, some of which may be equal.
--
-- Slices and Strings (src/ty_string.c, includes/ty_string.h): a slice is an object, an offset
-- and a size; a string is an optional buffer, a size and a capacity. strncmp, strlen, malloc
-- and realloc are parameters; what is assumed of them is `Allocates`, `AllocatesNull` and
-- `Reallocates`. A slice that is put into a string stands in another array. string_cstring
-- has no defined behaviour and is left out. Strings.Files has the two functions on files, with
-- stdio as parameters, fclose, fseek and ftell among them, whose failures the code does not
-- ask for, and `Stores` as what is assumed of it.
--
-- Linklist (src/ty_linklist.c, includes/ty_linklist.h): the nodes stand on a heap, a function
-- from pointers to nodes; an access through a null or dangling pointer is a fault. The
-- callbacks are parameters, their calls a list of arguments. The loop of ty_list_find takes
-- fuel; the other loops are bounded by a counter.
--
-- Alloc (src/ty_alloc.c, includes/ty_alloc.h): the region and the arena, on addresses,
-- block sizes and the sizes stored in front of buffers. The bytes of the buffers themselves are
-- not modelled: Alloc.Remap has region_remap, arena_t_remap and the annex, with the calls of
-- memcpy that they make in a list. They call region_free, which is declared and nowhere
-- defined: a parameter, for which the theorem takes region_t_free. Alloc.Vectors has
-- the vector, on its elements, with remap as a parameter and `Remaps` as what is assumed of it.
-- The doubling loop takes 65 rounds, enough for a request of up to 2^63; beyond it the size
-- wraps to 0 and the loop of the source has no end.
--
-- Argparse (includes/ty_argparse.h): arguments are lists of characters with a null character
-- behind each. The jump to start_label is a recursive call on fuel; two passes are enough.
--
-- Harness (src/ty_test.c, includes/ty_test.h): Harness.Pipe has the text that a failing test
-- writes to the failure pipe, with its buffer of 4095 characters, and its reader;
-- Harness.Registry has the array of tests, Harness.Names the name of a suite; Harness.Asserts
-- the assertions; Harness.Runner the run of one test and of all of them. What the system answers
-- (pipes, fork, waitpid, read) is a record of parameters, "%d" and atoi are functions. The loop
-- around waitpid takes fuel: 100 rounds for each second of the timeout are enough. Its counter,
-- and the timeout times 100, are of type int: beyond its range a fault. Printing, clocks,
-- captured output and the comparison of long double numbers are not modelled.
--
-- Queue (src/ty_thread_queue.c, includes/ty_thread_queue.h): the buffer is a function on
-- the bytes of the file that is mapped twice; every call is one step under the mutex, or a
-- wait. Queue.Runs has the steps. ty_queue_free and the aborts are not modelled.
--
-- Bitpool (includes/ty_bitpool.h): the two levels are lists of words of 64 bits; ctz64 is the
-- loop of the fallback, for which 64 rounds are enough if the word is not 0.
--
-- Flyvec (includes/ty_flyvec.h): the vector of two pointers is a length and the elements, or
-- none for the null pointer; realloc is a parameter, and what is assumed of it is
-- `Flyvec.Push.Reallocates`. Errors (includes/ty_err.h): pointers are words of 64 bits.
--
-- Exits (includes/ty_assert.h, includes/ty_log.h, src/ty_log.c, and the wrappers of malloc in
-- includes/ty_alloc.h): an assertion that fails gives the text that is written before the
-- process exits; what a format makes of its arguments is a parameter.
--
-- Not modelled: string_cstring, which reads a field before it has a value; ty_queue_free and
-- the aborts of the queue, which only call the system; what the test harness prints; the demo
-- programs src/ty_argparse.c and src/ty_flyvec.c; the tests.
mod Base
pub mod Bignum
mod Slices
mod Strings
mod Linklist
mod Alloc
mod Argparse
mod Harness
mod Queue
mod Bitpool
mod Flyvec
mod Errors
mod Exits
