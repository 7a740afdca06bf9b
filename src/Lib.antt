-- ===== src/Lib.antt =====
-- The native core of rmoriebricklayer, a package that pins published tables by digest, checks
-- drift and signs the record. Paths are from the repository's root.
--
-- The parts, and the files that model them:
--   src/rmbl_bignum.h (limb integers: trim, cmp, bit_length) is Bignum; what a vector of limbs
--     stands for is Bignum/Value.
--   src/rmbl_asn1.cpp has two halves. The RSA half (from_bytes, to_bytes, sub_in_place, mul, shl1,
--     bit, mod, modexp and C_rmbl_rsa_recover_impl) is Rsa. The DER half (Node, parse_one,
--     parse_seq and C_rmbl_der_parse_impl) is Der; Der/Encode says what DER is.
--   src/rmbl_ct.h (hex_digit, hexlify, unhex_digit, unhexlify, wipe) is Hex.
--   src/rmbl_keccak.cpp (keccak_f1600, the sponge's init, absorb, finalize and squeeze, SHA-3 and
--     SHAKE) is Keccak, its permutation Keccak/Permutation; Keccak/Fips says what FIPS 202 says.
--   src/rmbl_drbg_core.h (gmul, sbox, Aes256, CtrDrbg) is Drbg and Drbg/Aes. The generator is stated
--     over an interface of a block cipher, which the portable cipher fills. src/rmbl_drbg.cpp, the
--     entry points that take and give the state, is Drbg/Entry, and Drbg/Sp800 says what SP 800-90A says.
--   The SHA-2 functions of src/rmbl_core.cpp and src/rmbl_digest.cpp are Sha2, which has what the two
--     update functions share, with Sha2/Sha256 and Sha2/Sha512; Sha2/Machine is the machine of one
--     byte after another that they are compared with.
--   src/rmbl_digest.cpp also has SHA-1, which is Sha1, CRC-32, which is Crc, and the Merkle trees over chunks
--     (merkle_reduce, leaves_from_chunks and the three entry points), which are Merkle;
--     Merkle/Messages says which messages a tree hashes.
--   src/rmbl_mgf1.cpp, and HMAC-SHA-256 and rmbl_digest_equal of src/rmbl_digest.cpp, are Mac.
--   pbkdf2_inner of src/rmbl_kdf.cpp is Kdf, when an interrupt is pending being a parameter; its entry
--     point is Kdf/Entry, and the BLAKE2b of the same file Kdf/Blake2b, with Kdf/Blake2b/Compression and
--     Kdf/Blake2b/Rfc for RFC 7693. The `int` with the number of blocks of pbkdf2_inner overflows for
--     more than 2 ^ 31 - 32 bytes, which is an outcome of its own, undefined.
--   src/rmbl_pqc.cpp (XMSS: hash addresses, chains, the L-tree, the tree and the entry points) is
--     Xmss; Xmss/Scheme has the loops of signing and of verification, Xmss/Entry the entry points.
--   src/rmbl_mlkem_arith.h (the ring arithmetic of ML-KEM) is Mlkem, the transforms and the products
--     Mlkem/Ntt. A layer is a loop over blocks, and a block is given by its two halves, whose pairs
--     the inner loop changes one after the other.
--   src/rmbl_json.cpp (the native JSON reader) is Json: Json/Utf8 has the check of the encoding, Json/Text
--     the strings, Json/Number and Json/Keys the numbers and the repeated keys, Json/Read the
--     recursion over values and containers, Json/Entry the entry point, and Json/Read/Written and
--     Json/Entry/Accepts a writer of JSON that the reader is compared with. Doubles are a parameter, with
--     rmbl_strtod_bytes of src/rmbl_strtod.cpp, and so are qsort and the poll for an interrupt.
--   Prelude holds the shared names, the Boolean tests, lists, bit operators and laws of numbers.
--   Tests runs the models and applies the theorems at concrete inputs.
-- Certificates and timestamps go through Der first; the numbers found there go to Rsa.
--
-- Numbers are natural numbers; each wrap of a C++ type is written out as a remainder, and the
-- theorems show where none happens. A vector that is changed in place is a list; `mod` and `mul` are
-- called mod_big and mul here.
--
-- Fuel: parse_one and parse_seq recur on fuel, 2 * n + 1 for n bytes, since each node takes at
-- least two bytes and one call more for its list of children. The loop over tag septets has one
-- unit for each byte left, the bit loops have the 32 rounds of a word, and the loops of the
-- sponge, of generate and of MGF1 one round for each byte, since a round takes at least one. The
-- loops over the levels of a Merkle tree and of an L-tree have one round for each node, and that of
-- the XMSS tree one for each level. The JSON reader takes two units of fuel for each byte and one
-- more, since a value or an element takes at least one byte; its loops over bytes have one for each.
--
-- Not modelled: allocation failures and the conversions to and from R values, which the R runtime
-- does; the polls for an interrupt in modexp and tree_root; wiping states and temporaries on return;
-- the AES-NI instructions; and the other sources.
pub mod Prelude
pub mod Bignum
pub mod Rsa
pub mod Der
pub mod Hex
pub mod Keccak
pub mod Drbg
pub mod Crc
pub mod Sha2
pub mod Sha1
pub mod Merkle
pub mod Mac
pub mod Kdf
pub mod Xmss
pub mod Mlkem
pub mod Json
pub mod Tests
