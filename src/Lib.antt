-- ===== src/Lib.antt =====
-- The core logic of opssl, a TLS library in C: what reads bytes from the network, what keeps the
-- state of a datagram connection, what protects records, and what moves a session between processes.
--
-- The parts, from the bottom up:
--   Base         shared notation: the native numbers, tests on them, lists, bits and digits.
--   Bytes        include/opssl/platform.h: opssl_be16 … opssl_put_be64, and memcpy into a buffer.
--   Cbs          include/opssl/cbs.h, src/crypto/cbs.c: the parser of byte strings, opssl_cbs_t. A
--                parser is the bytes from its pointer on, and the length of its view.
--   Cbb          src/crypto/cbs.c: the builder, opssl_cbb_t, over a store that holds the builders by
--                number and the blocks of memory that their `buf` point to.
--   Err          include/opssl/err.h, src/err.c: the ring of the last eight errors of a thread.
--   Asn1         src/x509/asn1.c: the DER reader, over a parser and the error ring.
--   Ciphersuite  src/tls/ciphersuite.c: the table of cipher suites and all that reads it.
--   Dtls         src/tls/dtls.c: the anti-replay window, the reassembly of handshake fragments, the
--                flight buffer and the retransmission timer, each over the fields that it uses.
--   Crypto       src/crypto/chacha20.c (the path without AVX2), src/crypto/poly1305.c, the AEAD of
--                src/crypto/chacha20_poly1305.c, src/crypto/constant_time.c, and in Aead the choice
--                of the algorithm by opssl_aead_seal and opssl_aead_open of src/crypto/aes_gcm.c.
--                ChaCha20/Rfc8439.antt has RFC 8439 in definitions of its own. Sha256 is
--                src/crypto/sha256.c, its software path; Sha256/Constants.antt, Sha256/Compression.antt
--                and Sha256/Fips180.antt have FIPS 180-4 in definitions of their own. Hmac is
--                src/crypto/hmac.c, over the calls of the hash functions (HashCalls), with their
--                contract in Crypto/Hmac/Rfc2104.antt, which Crypto/Hmac/OverSha256.antt shows of
--                SHA-256. Hkdf is src/crypto/hkdf.c, with opssl_hkdf_expand_label in
--                Crypto/Hkdf/Label.antt.
--   KeySchedule  src/tls/keysched.c: the secrets of TLS 1.3, and RFC 8446 in KeySchedule/Rfc8446.antt.
--   Tls13        src/tls/tls13.c: in Secrets the transcript and the derivation of the secrets, with the
--                exporter of src/tls/handshake.c, where the result of opssl_tls12_export_keying_material
--                is an argument; in Negotiation the cipher suite and the key share.
--   Conn         src/tls/handshake.c: the accessors of a connection that the export calls, with
--                opssl_aead_new and opssl_aead_set_key of src/crypto/aes_gcm.c.
--   Session      src/io/export.c: opssl_session_export and opssl_session_import, and in Wrapped
--                the two under a wrapping key, over the AEAD calls: AES-256-GCM, which is not modelled.
--   Record       src/tls/record.c: opssl_record_encrypt and opssl_record_decrypt, for TLS 1.3 and
--                TLS 1.2. The AEAD is a record of its two operations (AeadCalls), with its contract
--                in Record/Law.antt, which Crypto/Aead.antt shows of ChaCha20-Poly1305.
--   KeyUpdate    src/tls/handshake.c: opssl_conn_key_update, what finishes it, and the KeyUpdate case
--                of process_tls13_post_handshake; two connections in step in KeyUpdate/Rounds.antt.
--   Hostname     src/x509/chain.c: the match of a host name with the names of a certificate, as
--                src/x509/cert.c stores and prints them; a Certificate is what its ASN.1 reads yield.
--   Pem          src/x509/pem.c: opssl_base64_encode and opssl_base64_decode.
--   Tests        runs at concrete inputs.
--
-- Each module declares the state and the operations; its children hold the proofs and are named for
-- what they prove. A function of C keeps its name, less the prefix opssl_ and the module's. What it
-- writes through a pointer is a component of its result; the return value of a failure is `none` or
-- `false`, and a result beside it is the state that the failure leaves. A parser is threaded through
-- `do` blocks, in Asn1 together with the error ring.
--
-- Numbers are natural numbers; where the code computes in 8, 16, 32 or 64 bits and could wrap, the
-- remainder is written out. `size_t` has 64 bits. Bytes are numbers below 256, which is a hypothesis
-- where it matters. A null pointer is modelled where a
-- function gives it a meaning, and an allocation that fails is not; the bytes of
-- fresh memory are an argument where they can be seen.
--
-- Loops that run on fuel, with theorems that the fuel is enough: opssl_ciphersuite_parse_list with one
-- more than the length of its text, as each round but the last takes a byte; the doubling in
-- dtls_flight_append with 19 rounds, as 2^18 is above the limit of the buffer; the loop of
-- opssl_chacha20 with the length of its input, as each round takes 64 bytes or what is left; the
-- doubling in cbb_grow with 64 rounds, as a capacity has 64 bits. The walks along the pointers of
-- builders have their fuel as an argument: one more than the depth of the nesting is enough. So do the
-- loops over a ClientHello (one more than its entries is enough) and the loop of opssl_hkdf_expand:
-- 256 rounds are enough where it ends. All other loops are structural recursion.
--
-- Not modelled: the times of src/x509/asn1.c, the markers of PEM blocks, the messages and the state
-- machines of the handshakes in src/tls, the certificates and chains
-- of src/x509 but for the host name, the other cryptographic primitives (AES-GCM, AES-CCM and
-- Camellia-GCM are parameters of Crypto/Aead.antt, the other hash functions of Crypto/Hmac.antt), and
-- all that is I/O: sockets, files, the clock, whose readings are arguments.
pub mod Base
pub mod Bytes
pub mod Cbs
pub mod Cbb
pub mod Err
pub mod Asn1
pub mod Dtls
pub mod Ciphersuite
pub mod Crypto
pub mod Conn
pub mod Session
pub mod Record
pub mod KeySchedule
pub mod Tls13
pub mod KeyUpdate
pub mod Hostname
pub mod Pem
pub mod Tests
