-- ===== src/Crypto/Sha256.antt =====
-- src/crypto/sha256.c: SHA-256, where the processor has no instructions for it.
pub mod Blocks
pub mod Constants
pub mod Compression
pub mod Stream
pub mod Final
pub mod Fips180
use opssl.Base.{
  ℕ, zero, suc, ◌+◌, ◌-◌, ◌*◌, ◌/◌, ◌%◌, ◌^◌, List, [], ◌∷◌, ◌++◌, length, take, drop, replicate,
  get_or, ltb, leb, if◌then◌else◌, bit_and, bit_or, bit_xor,
}
use opssl.Bytes.{shl32, be32, put_be32, put_be64}

abbrev pub k256 : List ℕ
k256 =
    0x428a2f98 ∷ 0x71374491 ∷ 0xb5c0fbcf ∷ 0xe9b5dba5 ∷ 0x3956c25b ∷ 0x59f111f1 ∷ 0x923f82a4
    ∷ 0xab1c5ed5 ∷ 0xd807aa98 ∷ 0x12835b01 ∷ 0x243185be ∷ 0x550c7dc3 ∷ 0x72be5d74 ∷ 0x80deb1fe
    ∷ 0x9bdc06a7 ∷ 0xc19bf174 ∷ 0xe49b69c1 ∷ 0xefbe4786 ∷ 0x0fc19dc6 ∷ 0x240ca1cc ∷ 0x2de92c6f
    ∷ 0x4a7484aa ∷ 0x5cb0a9dc ∷ 0x76f988da ∷ 0x983e5152 ∷ 0xa831c66d ∷ 0xb00327c8 ∷ 0xbf597fc7
    ∷ 0xc6e00bf3 ∷ 0xd5a79147 ∷ 0x06ca6351 ∷ 0x14292967 ∷ 0x27b70a85 ∷ 0x2e1b2138 ∷ 0x4d2c6dfc
    ∷ 0x53380d13 ∷ 0x650a7354 ∷ 0x766a0abb ∷ 0x81c2c92e ∷ 0x92722c85 ∷ 0xa2bfe8a1 ∷ 0xa81a664b
    ∷ 0xc24b8b70 ∷ 0xc76c51a3 ∷ 0xd192e819 ∷ 0xd6990624 ∷ 0xf40e3585 ∷ 0x106aa070 ∷ 0x19a4c116
    ∷ 0x1e376c08 ∷ 0x2748774c ∷ 0x34b0bcb5 ∷ 0x391c0cb3 ∷ 0x4ed8aa4a ∷ 0x5b9cca4f ∷ 0x682e6ff3
    ∷ 0x748f82ee ∷ 0x78a5636f ∷ 0x84c87814 ∷ 0x8cc70208 ∷ 0x90befffa ∷ 0xa4506ceb ∷ 0xbef9a3f7
    ∷ 0xc67178f2 ∷ []

-- ROR32, CH, MAJ, EP0, EP1, SIG0 and SIG1
unfoldable pub ror32 : ℕ → ℕ → ℕ
ror32 x n = bit_or (x / 2 ^ n) (shl32 x (32 - n))

abbrev pub ch : ℕ → ℕ → ℕ → ℕ
ch x y z = bit_xor (bit_and x y) (bit_and (2 ^ 32 - 1 - x) z)

abbrev pub maj : ℕ → ℕ → ℕ → ℕ
maj x y z = bit_xor (bit_xor (bit_and x y) (bit_and x z)) (bit_and y z)

abbrev pub ep0 : ℕ → ℕ
ep0 x = bit_xor (bit_xor (ror32 x 2) (ror32 x 13)) (ror32 x 22)

abbrev pub ep1 : ℕ → ℕ
ep1 x = bit_xor (bit_xor (ror32 x 6) (ror32 x 11)) (ror32 x 25)

abbrev pub sig0 : ℕ → ℕ
sig0 x = bit_xor (bit_xor (ror32 x 7) (ror32 x 18)) (x / 2 ^ 3)

abbrev pub sig1 : ℕ → ℕ
sig1 x = bit_xor (bit_xor (ror32 x 17) (ror32 x 19)) (x / 2 ^ 10)

-- The words of a block.
unfoldable pub block_words : ℕ → List ℕ → List ℕ
block_words zero block = []
block_words (suc n) block = be32 block ∷ block_words n (drop 4 block)

-- The later words of the schedule, `n` of them from the `i`th on.
unfoldable pub extend_words : ℕ → ℕ → List ℕ → List ℕ
extend_words zero i w = w
extend_words (suc n) i w =
    let word =
      (sig1 (get_or w (i - 2) 0)
        + get_or w (i - 7) 0
        + sig0 (get_or w (i - 15) 0)
        + get_or w (i - 16) 0)
      % 2 ^ 32 in
    extend_words n (i + 1) (w ++ (word ∷ []))

pub record Vars : Type 0 where
  pub a : ℕ
  pub b : ℕ
  pub c : ℕ
  pub d : ℕ
  pub e : ℕ
  pub f : ℕ
  pub g : ℕ
  pub h : ℕ

unfoldable pub sha_round : ℕ → ℕ → Vars → Vars
sha_round k w v =
    let t1 = (v.h + ep1 v.e + ch v.e v.f v.g + k + w) % 2 ^ 32 in
    let t2 = (ep0 v.a + maj v.a v.b v.c) % 2 ^ 32 in
    record {
      a = (t1 + t2) % 2 ^ 32;
      b = v.a;
      c = v.b;
      d = v.c;
      e = (v.d + t1) % 2 ^ 32;
      f = v.e;
      g = v.f;
      h = v.g;
    }

-- The rounds, each with its constant and its word.
unfoldable pub sha_rounds : List ℕ → List ℕ → Vars → Vars
sha_rounds [] w v = v
sha_rounds (k ∷ ks) [] v = v
sha_rounds (k ∷ ks) (x ∷ w) v = sha_rounds ks w (sha_round k x v)

-- sha256_transform_software
unfoldable pub sha256_transform : Vars → List ℕ → Vars
sha256_transform s block =
    let v = sha_rounds k256 (extend_words 48 16 (block_words 16 block)) s in
    record {
      a = (s.a + v.a) % 2 ^ 32;
      b = (s.b + v.b) % 2 ^ 32;
      c = (s.c + v.c) % 2 ^ 32;
      d = (s.d + v.d) % 2 ^ 32;
      e = (s.e + v.e) % 2 ^ 32;
      f = (s.f + v.f) % 2 ^ 32;
      g = (s.g + v.g) % 2 ^ 32;
      h = (s.h + v.h) % 2 ^ 32;
    }

-- opssl_sha256_ctx_t: `buf` is the first `count & 63` bytes of the buffer, as no other is read.
pub record Sha256Ctx : Type 0 where
  pub state : Vars
  pub count : ℕ
  pub buf : List ℕ

abbrev pub initial : Vars
initial = record {
  a = 0x6a09e667;
  b = 0xbb67ae85;
  c = 0x3c6ef372;
  d = 0xa54ff53a;
  e = 0x510e527f;
  f = 0x9b05688c;
  g = 0x1f83d9ab;
  h = 0x5be0cd19;
}

-- opssl_sha256_init
abbrev pub sha256_init : Sha256Ctx
sha256_init = record { state = initial; count = 0; buf = [] }

-- The loop over whole blocks, `n` of them.
unfoldable pub transform_blocks : ℕ → Vars → List ℕ → Vars
transform_blocks zero s p = s
transform_blocks (suc n) s p = transform_blocks n (sha256_transform s (take 64 p)) (drop 64 p)

-- opssl_sha256_update from the loop on.
unfoldable pub absorb_rest : Vars → ℕ → List ℕ → Sha256Ctx
absorb_rest s count p =
    let n = length p / 64 in
    record { state = transform_blocks n s p; count = count; buf = drop (n * 64) p }

-- opssl_sha256_update
unfoldable pub sha256_update : Sha256Ctx → List ℕ → Sha256Ctx
sha256_update ctx p =
    let buffered = bit_and ctx.count 63 in
    let count = (ctx.count + length p) % 2 ^ 64 in
    let need = 64 - buffered in
    if ltb 0 buffered
    then (if ltb (length p) need
        then record { state = ctx.state; count = count; buf = ctx.buf ++ p }
        else absorb_rest (sha256_transform ctx.state (ctx.buf ++ take need p)) count (drop need p))
    else absorb_rest ctx.state count p

-- The words of the state, as the digest has them.
unfoldable pub digest_of : Vars → List ℕ
digest_of s =
    put_be32 s.a
    ++ (put_be32 s.b
        ++ (put_be32 s.c
            ++ (put_be32 s.d
                ++ (put_be32 s.e ++ (put_be32 s.f ++ (put_be32 s.g ++ put_be32 s.h))))))

-- opssl_sha256_final: the digest.
unfoldable pub sha256_final : Sha256Ctx → List ℕ
sha256_final ctx =
    let bits = put_be64 (ctx.count * 8 % 2 ^ 64) in
    let buffered = bit_and ctx.count 63 + 1 in
    let ended = ctx.buf ++ (0x80 ∷ []) in
    if ltb 56 buffered
    then digest_of (
        sha256_transform (sha256_transform ctx.state (ended ++ replicate (64 - buffered) 0))
          (replicate 56 0 ++ bits))
    else digest_of (sha256_transform ctx.state (ended ++ (replicate (56 - buffered) 0 ++ bits)))

-- opssl_sha256
unfoldable pub sha256 : List ℕ → List ℕ
sha256 message = sha256_final (sha256_update sha256_init message)
