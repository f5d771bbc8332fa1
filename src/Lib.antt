-- ===== src/Lib.antt =====
-- Boole-ANN: filtered vector search over predicate supports. A support is the strictly increasing
-- list of the rows that satisfy a predicate. The supports of atomic predicates are stored in
-- compact byte layouts, merged into the support of a query, and the rows of that support are
-- scored.
--
-- Parts:
-- - src/laion/native/leaf_posting_merge.cpp is Leaf: Leaf/Emit and Leaf/Merge hold the routines
--   and the three loops, Leaf/Entry the two entry points with their checks in the code's order.
--   An array with its row count is the list of its entries; the output buffer is the list of the
--   rows written so far, and the audit array a record.
-- - src/laion/native/u24_decode.c and delta16_decode.c are Codec: the two decoders, over the
--   list of the source bytes.
-- - src/predicate_cube/predicate_cube.hpp is Cube: the constructor up to its audit (lay_out,
--   with its three loops) and the slices. A vector is a function of the index, with its extent in
--   the record. Cube/Count and Cube/Fill say where the counting sort puts a row, Cube/Layout what
--   the constructor leaves, Cube/Slices what a slice holds.
-- - src/laion/native/elias_fano_topk.cpp is EliasFano: the sizes and directories in
--   EliasFano.antt, the encoders in EliasFano/Encode and EliasFano/Union, the decoder in
--   EliasFano/Decode. The bytes of an owner are its 64-bit words, since every offset that the
--   code loads or stores at is a multiple of 8. The rows that a decode writes do not overlap the
--   bytes of the owner: the code does not check it, and its second pass reads what the first one
--   read only then.
-- - src/laion_sieve/laion1m_v19_same_resident_formal_protocol.h is Protocol: routes and
--   resources in Protocol.antt, the schedule in Protocol/Schedule, the random draws in
--   Protocol/Draw, the exact answer in Protocol/Truth, the hits in Protocol/Judge. A throw is
--   none. Floats are a parameter, with the laws of their comparison in Protocol/Ranked;
--   Protocol/Nearest has what the exact answer holds. The draw makes as many attempts as its fuel
--   allows; nothing is said about how many it needs.
-- - src/laion_sieve/pass_release_contract.h is Release: the documents and validators in
--   Release.antt, sha256_hex in Release/Sha256, the waiting loop in Release/Wait over what each
--   of its turns sees. An offset into a payload is the text behind it. Twenty digits are enough
--   for a 64-bit number.
-- - src/categorical/include/pair_offset16_kernel.h, pair_offset16_block16.h and
--   pair_offset16_prefix128.h are Pair: distances and insert_top_k in Pair.antt, the scans in
--   Pair/Scan, the two cascades in Pair/Block16 and Pair/Prefix128, the intersections and the
--   choices of strategy in Pair/Intersect, the checked wrappers in Pair/Checked. Pointers are not
--   null there; an array without a size is a function of the index; a frontier of K entries is a
--   list, with K = k + 1; the vector instructions are those of the portable branch.
-- - src/laion/native/fixed_block_compositor.cpp is Compositor: the heap of segments in
--   Compositor/Heap, advance and its streams in Compositor/Stream, the two merge loops in
--   Compositor/Merge, the checks and the decoding in Compositor/Prepare, the whole call in
--   Compositor/Search, whose result is its status or what it writes. The rows of a segment are
--   the list that its object is decoded to; u24le_decode is that of Codec. Scoring a batch is an
--   argument of the search (Scorer); Compositor/Score has the one of the program, with the loops
--   of src/laion/native/exact_topk_avx2.cpp that it calls, over the distances of the rows and the
--   heap routines of the standard library.
-- - Base holds what these share: lists and tests over the native numbers, increasing lists, the
--   disjunction of bit fields, and the interface of the IEEE doubles (Base/Double), which are a
--   parameter.
--
-- Codec/Repeat has the repeated decode of u24_decode.c, and Codec/Concurrency its two atomic
-- counters as a step relation over threads that interleave. Cube/Audit has the audit that ends
-- the constructor of the cube.
--
-- Loops over arrays recur on the entries that are left, so no fuel is needed. Elsewhere the fuel
-- is a bound of the code: 20 halvings for a number below a million, 63 bits before the lowest one
-- of a word that is not zero, the words that are left of a stream, the entries that are left of
-- two lists, the offsets that are left for blocks of 16, the cells of a heap for its two loops,
-- the rows of all segments for the loops of the merge, 20 digits of a 64-bit number, 16 words of
-- a block. Unsigned counters are plain numbers where a counter is bounded by the rows in memory,
-- and are taken modulo a power of two elsewhere.
--
-- Not modelled: the floating-point distances of rows, the entry points of exact_topk_avx2.cpp and
-- the routines that end in them (the top-10 scan of elias_fano_topk.cpp among them), the
-- compositor of packed blocks, and the benchmark drivers, runners and builders with their files,
-- clocks and processes. What a call of the operating system gives is an argument.
pub mod Base
pub mod Codec
pub mod Compositor
pub mod Cube
pub mod EliasFano
pub mod Leaf
pub mod Pair
pub mod Protocol
pub mod Release
