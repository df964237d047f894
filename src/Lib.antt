-- ===== src/Lib.antt =====
-- The operating systems labs: the testfs file system of fs/, the thread library of threads/, the
-- web server of webserver/ and the exercises of warmup/.
--
-- A device file (fs/block.c, in Fs/Device) is read and written in blocks. Two bitmaps
-- (fs/bitmap.c, in Fs/Bitmap) say which inodes and which blocks are in use. The super block
-- (fs/super.c, in Fs/Super) holds them with their counts, takes and gives back inodes and blocks,
-- and writes each change to the device at once. fs/mktestfs.c (Fs/Mkfs) makes a new device, and
-- Fs/Unmount closes the super block, which destroys the inode hash table too. An open file
-- (Fs/File, from fs/inode.c) counts its blocks, and fs/read_write.c finds them (Fs/ReadWrite),
-- allocates them (Fs/Growth) and frees them (Fs/Truncate). Fs/Dinode reads and writes the inodes
-- on the device, and Fs/Inodes shares the inodes in memory through the table of fs/inode.c; the
-- lists and the hash function of fs/list.h are parameters of it, with what they promise
-- (Fs/Hlist).
--
-- The buffer of requests of the web server (webserver/server_thread.c, in Web/Requests) is shared
-- by the main thread, which adds requests, and the workers, which take them. All accesses are
-- under one lock, so what a thread does while it holds the lock is a step, and the threads are any
-- sequence of steps. A wait on a condition variable is an answer (`waits`) that changes nothing: a
-- woken thread makes its test again. An access behind the end of the allocated array is the answer
-- `outside`. The request itself is the descriptor of its connection.
--
-- The cache of the web server (also in webserver/server_thread.c) is a hash table of entries whose
-- buckets are linked lists, and a second linked list of the entries, the least recently used one
-- first. Web/Lru has that list, Web/Cache the table and the lookup, Web/Cache/Insert the eviction,
-- the insertion and the end of the cache, and Web/Cache/Serve the workers around it, from
-- do_server_request. Every function takes the mutex of the cache for all of its run, so a run is a
-- step, and the workers are any sequence of steps. The entry and the node that `malloc` returns
-- are arguments. The file data that file_data_free was called with are listed in the state. The
-- bytes of a file are not part of the model, its name and size are; the field in_use of the
-- entries and the dummy heads of the buckets have stores of their own. A `char` is signed, as on
-- x86-64, and the hash is computed modulo 2 ^ 64; the size of the cache is an integer, and so are
-- the sums with it, which are far from the bounds of a `long`.
--
-- The thread library (threads/thread.c, in Threads) keeps a ready queue, whose head is the running
-- thread, a queue of exited threads, an array of threads by id and wait queues, which locks and
-- condition variables use. Each struct has its own store from address to struct (Threads/Memory,
-- Threads/Kernel), NULL is the address 0, and an access to an address that holds nothing is
-- `faulted`. What `malloc` returns is an argument. A free of a stack that is not allocated, such
-- as the field of the initial thread that is never set, is `faulted`. Threads/Queue has the
-- queues, Threads/Memory/Seg the chains of nodes that they are made of, an instance of the linked
-- lists of Base/Chain, which the cache uses too. An operation runs up to the point where the
-- context of another thread is set: it ends as `returned`, with an answer, or as `switched`, with
-- the thread that goes on and the answer that the caller gets when its own context is set again;
-- what it then does first is `resume` (Threads/Exit). Threads/Create has new threads,
-- Threads/Yield thread_yield, Threads/Exit the end of threads, Threads/Wait sleep and wakeup, and
-- Threads/Locks the locks and the condition variables. Whether interrupts are on is a flag
-- (threads/interrupt.c).
--
-- The word counter of warmup/wc.c (Warmup/Wc) copies words out of an array into a table of counts;
-- its buffer, the `int` that it counts with and what a NUL in a word does are modelled, the
-- elements of a bucket are a list, and the libc function isspace is a parameter.
--
-- Names. A function keeps its name, without the prefix testfs_ or bitmap_: bitmap_alloc is
-- Fs.Bitmap.alloc, testfs_alloc_block is Fs.Super.alloc_block. A struct is a record of its fields.
--
-- How code is read. A function that changes an object is a command over its state (Base/Run): it
-- ends with a value and the new state, or it halts the process, by a failed assert (`aborted`),
-- the macro EXIT (`exited`) or an access outside of an object (`faulted`). An `int` that may be an
-- error is an integer (Base/Int), and -ENOSPC is -28. A `u32` is a natural number with its
-- wrap-around written out; sizes and offsets of fs/read_write.c are bit patterns, so that a
-- negative offset and the return of a size as an `int` are what they are in C. Memory is a
-- function from offset to byte, and words in it are little-endian (Fs/Bytes), as on the x86-64
-- machines for which the code is written; struct dsuper_block is 32 bytes and struct dinode 64. In
-- fs/ and the buffer of requests `malloc` succeeds, and what `calloc` returns for an inode is an
-- argument. Writes to the device file succeed; a read past its end ends the process.
--
-- Loops. A counted loop recurs on the rounds that are left, with the bound of the source. The
-- loops of testfs_read_data and testfs_write_data run on fuel of one round for each byte and one
-- more; each round moves at least one byte. The loops of threads/thread.c over a queue run on fuel
-- of its `size`, which counts its nodes, in thread_wakeup, and of one round more elsewhere; those
-- of the cache run on one round more than the size of the LRU list, which lists every entry. A
-- loop that goes on behind its fuel is `diverged`.
--
-- Not modelled: fs/list.h, a copy of the Linux list header; directories and the shell of fs/; the
-- parsing and the sending of requests by the web server, and its clients; the machine contexts,
-- signals and the timer of threads/, and its tests; the output of warmup/wc.c and the other
-- exercises; opening and closing files, option parsing and printing.
pub mod Base
pub mod Fs
pub mod Threads
pub mod Warmup
pub mod Web
