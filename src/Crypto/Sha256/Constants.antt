-- ===== src/Crypto/Sha256/Constants.antt =====
-- The constants of SHA-256 as FIPS 180-4 defines them, beside those of src/crypto/sha256.c.
use opssl.Base.{
  ℕ, suc, ◌+◌, ◌*◌, ◌^◌, ◌≡◌, refl, List, [], ◌∷◌, Bool, true, false, ◌&&◌, ltb, leb, if◌then◌else◌,
}
use opssl.Crypto.Sha256.{k256}

-- Section 4.2.2: the first 32 bits behind the point of the cube roots of the first 64 primes.
abbrev pub round_constants : List ℕ
round_constants =
    1116352408 ∷ 1899447441 ∷ 3049323471 ∷ 3921009573 ∷ 961987163 ∷ 1508970993 ∷ 2453635748
    ∷ 2870763221 ∷ 3624381080 ∷ 310598401 ∷ 607225278 ∷ 1426881987 ∷ 1925078388 ∷ 2162078206
    ∷ 2614888103 ∷ 3248222580 ∷ 3835390401 ∷ 4022224774 ∷ 264347078 ∷ 604807628 ∷ 770255983
    ∷ 1249150122 ∷ 1555081692 ∷ 1996064986 ∷ 2554220882 ∷ 2821834349 ∷ 2952996808 ∷ 3210313671
    ∷ 3336571891 ∷ 3584528711 ∷ 113926993 ∷ 338241895 ∷ 666307205 ∷ 773529912 ∷ 1294757372
    ∷ 1396182291 ∷ 1695183700 ∷ 1986661051 ∷ 2177026350 ∷ 2456956037 ∷ 2730485921 ∷ 2820302411
    ∷ 3259730800 ∷ 3345764771 ∷ 3516065817 ∷ 3600352804 ∷ 4094571909 ∷ 275423344 ∷ 430227734
    ∷ 506948616 ∷ 659060556 ∷ 883997877 ∷ 958139571 ∷ 1322822218 ∷ 1537002063 ∷ 1747873779
    ∷ 1955562222 ∷ 2024104815 ∷ 2227730452 ∷ 2361852424 ∷ 2428436474 ∷ 2756734187 ∷ 3204031479
    ∷ 3329325298 ∷ []

-- Section 5.3.3: the same of the square roots of the first eight primes.
abbrev pub start_words : List ℕ
start_words =
    1779033703 ∷ 3144134277 ∷ 1013904242 ∷ 2773480762 ∷ 1359893119 ∷ 2600822924 ∷ 528734635
    ∷ 1541459225 ∷ []

abbrev pub primes : List ℕ
primes =
    2 ∷ 3 ∷ 5 ∷ 7 ∷ 11 ∷ 13 ∷ 17 ∷ 19 ∷ 23 ∷ 29 ∷ 31 ∷ 37 ∷ 41 ∷ 43 ∷ 47 ∷ 53 ∷ 59 ∷ 61 ∷ 67 ∷ 71
    ∷ 73 ∷ 79 ∷ 83 ∷ 89 ∷ 97 ∷ 101 ∷ 103 ∷ 107 ∷ 109 ∷ 113 ∷ 127 ∷ 131 ∷ 137 ∷ 139 ∷ 149 ∷ 151 ∷ 157
    ∷ 163 ∷ 167 ∷ 173 ∷ 179 ∷ 181 ∷ 191 ∷ 193 ∷ 197 ∷ 199 ∷ 211 ∷ 223 ∷ 227 ∷ 229 ∷ 233 ∷ 239 ∷ 241
    ∷ 251 ∷ 257 ∷ 263 ∷ 269 ∷ 271 ∷ 277 ∷ 281 ∷ 283 ∷ 293 ∷ 307 ∷ 311 ∷ []

-- The whole part of the cube root of a prime below 343, and of the square root of one below 25.
abbrev pub whole_part : List ℕ → ℕ → ℕ
whole_part [] p = 0
whole_part (power ∷ later) p = if leb power p then suc (whole_part later p) else 0

abbrev cubed : ℕ → ℕ
cubed r = r * r * r

abbrev squared : ℕ → ℕ
squared r = r * r

-- The words are the bits behind the point of the roots: no number between has the power of the prime.
abbrev pub are_roots : (ℕ → ℕ) → List ℕ → ℕ → List ℕ → List ℕ → Bool
are_roots power powers one [] ps = true
are_roots power powers one (w ∷ ws) [] = false
are_roots power powers one (w ∷ ws) (p ∷ ps) =
    let r = whole_part powers p * 2 ^ 32 + w in
    (leb (power r) (p * one) && ltb (p * one) (power (r + 1))) && are_roots power powers one ws ps

round_constants_of_primes :
    are_roots cubed (1 ∷ 8 ∷ 27 ∷ 64 ∷ 125 ∷ 216 ∷ []) (2 ^ 96) round_constants primes ≡ true
round_constants_of_primes = refl

start_words_of_primes : are_roots squared (1 ∷ 4 ∷ 9 ∷ 16 ∷ []) (2 ^ 64) start_words primes ≡ true
start_words_of_primes = refl

pub round_constants-k256 : round_constants ≡ k256
round_constants-k256 = refl
