-- ===== src/Crypto/Hkdf/Rfc5869.antt =====
-- HKDF-Expand as RFC 5869 defines it, and that src/crypto/hkdf.c computes it.
use opssl.Base.{
  concat, take-append_long, take-append_short, ℕ, zero, suc, ◌+◌, ◌-◌, ◌*◌, ◌/◌, ◌%◌, ◌^◌, ◌≤◌, ◌<◌,
  ◌≡◌, refl, sym, ap, ◌∙◌, Bool-cases, inl, inr, true, false, List, [], ◌∷◌, ◌++◌, length, take,
  replicate, ltb, leb, if◌then◌else◌, append-nil, append_assoc, length-append, take_all, take-nil,
  length-take, min, arith, le→ltb,
}
use opssl.Crypto.Hmac.{
  HmacAlgo, hmac_sha1, hmac_sha256, hmac_sha384, hmac_sha512, HashCalls, digest_size,
}
use opssl.Crypto.Hmac.Rfc2104.{
  IsHash, rfc_hmac, hmac_final-hmac_updates, hmac-rfc_hmac, length-rfc_hmac,
}
use opssl.Crypto.Hkdf.{expanded, refused, piece, hkdf_extract, next_t, expand_loop, hkdf_expand}

-- T(i) = HMAC-Hash(PRK, T(i-1) | info | i), and `count` of them from one on, put together.
abbrev pub rfc_t : HashCalls → HmacAlgo → List ℕ → List ℕ → List ℕ → ℕ → List ℕ
rfc_t h algo prk info t i = rfc_hmac h algo prk (t ++ (info ++ (i ∷ [])))

unfoldable pub rfc_stream : HashCalls → HmacAlgo → List ℕ → List ℕ → ℕ → ℕ → List ℕ → List ℕ
rfc_stream h algo prk info zero i t = []
rfc_stream h algo prk info (suc count) i t =
    let t' = rfc_t h algo prk info t i in t' ++ rfc_stream h algo prk info count (i + 1) t'

concat-append : (xs ys : List (List ℕ)) → concat (xs ++ ys) ≡ concat xs ++ concat ys
concat-append [] ys = refl
concat-append (x ∷ xs) ys =
    ap (λ l. x ++ l) (concat-append xs ys) ∙ sym (append_assoc x (concat xs) (concat ys))

concat-piece : (xs : List ℕ) → concat (piece xs) ≡ xs
concat-piece [] = refl
concat-piece (x ∷ xs) = append-nil (x ∷ xs)

next_t-rfc_t :
    (h : HashCalls) (algo : HmacAlgo) (prk info t : List ℕ) (i : ℕ)
    → IsHash h algo
    → next_t h algo prk info t i ≡ rfc_t h algo prk info t i
unfolding next_t
next_t-rfc_t h algo prk info t i law =
    let last = (i ∷ []) ∷ [] in
    let whole : concat (piece t ++ (piece info ++ last)) ≡ t ++ (info ++ (i ∷ [])) =
      concat-append (piece t) (piece info ++ last)
      ∙ (λ k. concat-piece t k ++ concat-append (piece info) last k)
      ∙ (λ k. t ++ (concat-piece info k ++ (i ∷ []))) in
    hmac_final-hmac_updates h algo prk (piece t ++ (piece info ++ last)) law
    ∙ ap (rfc_hmac h algo prk) whole

-- A block, as much of it as is asked for, and the rest from what follows.
take-block :
    (left : ℕ) (t rest : List ℕ)
    → take (min left (length t)) t ++ take (left - min left (length t)) rest ≡ take left (t ++ rest)
take-block left t rest = elim (Bool-cases (leb left (length t))) [
  | inl e ↦
      let low : left ≤ length t = ground arith in
      let copy : min left (length t) ≡ left = omega arith in
      let none_left : left - left ≡ 0 = omega arith in
      rw (copy, none_left) (append-nil (take left t) ∙ sym (take-append_short left t rest low))
  | inr e ↦
      let high : length t ≤ left = ground arith in
      let copy : min left (length t) ≡ length t = omega arith in
      rw (copy, take_all (length t) t (omega arith)) (sym (take-append_long left t rest high))
]

-- The loop from a counter that does not wrap: `count` rounds, and the one in which it ends.
expand_loop_lem :
    (h : HashCalls) (algo : HmacAlgo) (prk info t : List ℕ) (n count spare i left : ℕ)
    → IsHash h algo
    → i + count ≡ n + 1
    → n < 255
    → expand_loop h algo prk info n (count + 1 + spare) i t left
      ≡ expanded (take left (rfc_stream h algo prk info count i t))
unfolding expand_loop rfc_stream
expand_loop_lem h algo prk info t n zero spare i left law at small =
    let rounds : zero + 1 + spare ≡ suc spare = omega arith in
    let over : leb i n ≡ false = ground arith in
    ap (λ fuel. expand_loop h algo prk info n fuel i t left) rounds
    ∙ rw over (ap expanded (sym (take-nil left)))
expand_loop_lem h algo prk info t n (suc count) spare i left law at small =
    let rounds : suc count + 1 + spare ≡ suc (count + 1 + spare) = omega arith in
    let within : leb i n ≡ true = ground arith in
    let step : (i + 1) % 2 ^ 8 ≡ i + 1 = omega arith in
    let t' = rfc_t h algo prk info t i in
    let size : digest_size algo ≡ length t' =
      sym (length-rfc_hmac h algo prk (t ++ (info ++ (i ∷ []))) law) in
    let later =
      expand_loop_lem h algo prk info t' n count spare (i + 1) (left - min left (length t')) law
        (omega arith) small in
    ap (λ fuel. expand_loop h algo prk info n fuel i t left) rounds
    ∙ rw (within, step, next_t-rfc_t h algo prk info t i law, size, later)
        (ap expanded (take-block left t' (rfc_stream h algo prk info count (i + 1) t')))

length-rfc_stream :
    (h : HashCalls) (algo : HmacAlgo) (prk info t : List ℕ) (count i : ℕ)
    → IsHash h algo
    → length (rfc_stream h algo prk info count i t) ≡ count * digest_size algo
unfolding rfc_stream
length-rfc_stream h algo prk info t zero i law = omega arith
length-rfc_stream h algo prk info t (suc count) i law =
    let t' = rfc_t h algo prk info t i in
    let size = length-rfc_hmac h algo prk (t ++ (info ++ (i ∷ []))) law in
    let later = length-rfc_stream h algo prk info t' count (i + 1) law in
    let product : suc count * digest_size algo ≡ digest_size algo + count * digest_size algo =
      omega arith in
    length-append t' (rfc_stream h algo prk info count (i + 1) t')
    ∙ (λ k. size k + later k)
    ∙ sym product

-- The number of rounds that a length asks for.
abbrev pub rounds_for : HmacAlgo → ℕ → ℕ
rounds_for algo okm_len = (okm_len + digest_size algo - 1) / digest_size algo

rounds_for_lem :
    (algo : HmacAlgo) (okm_len : ℕ)
    → okm_len ≤ 254 * digest_size algo
    → (rounds_for algo okm_len ≤ 254)
      × (okm_len ≤ rounds_for algo okm_len * digest_size algo)
      × ((okm_len + digest_size algo - 1) % 2 ^ 64 ≡ okm_len + digest_size algo - 1)
rounds_for_lem hmac_sha1 okm_len h = omega arith
rounds_for_lem hmac_sha256 okm_len h = omega arith
rounds_for_lem hmac_sha384 okm_len h = omega arith
rounds_for_lem hmac_sha512 okm_len h = omega arith

-- For up to 254 digests, opssl_hkdf_expand ends, in no more than 256 rounds, and writes HKDF-Expand of
-- RFC 5869: the first okm_len bytes of the blocks T(1), T(2) and so on, which are as many bytes as
-- were asked for. The hash function streams.
pub hkdf_expand_lem :
    (h : HashCalls) (algo : HmacAlgo) (prk info : List ℕ) (okm_len spare : ℕ)
    → IsHash h algo
    → okm_len ≤ 254 * digest_size algo
    → let stream = rfc_stream h algo prk info (rounds_for algo okm_len) 1 [] in
      (hkdf_expand h algo prk info okm_len (256 + spare) ≡ expanded (take okm_len stream))
      × (length (take okm_len stream) ≡ okm_len)
unfolding hkdf_expand
hkdf_expand_lem h algo prk info okm_len spare law fits =
    let n = rounds_for algo okm_len in
    let stream = rfc_stream h algo prk info n 1 [] in
    let (few, enough, no_wrap) = rounds_for_lem algo okm_len fits in
    let fuel : 256 + spare ≡ n + 1 + (255 - n + spare) = omega arith in
    let byte : n % 2 ^ 8 ≡ n = omega arith in
    (
      ap
            (λ x.
              if ltb 255 (x / digest_size algo)
              then refused
              else expand_loop h algo prk info (x / digest_size algo % 2 ^ 8) (256 + spare) 1 []
                  okm_len)
            no_wrap
          ∙ rw (le→ltb 255 n (omega arith), byte, fuel)
              (expand_loop_lem h algo prk info [] n n (255 - n + spare) 1 okm_len law (omega arith)
                (omega arith)),
      length-take okm_len stream ∙ omega (arith, length-rfc_stream h algo prk info [] n 1 law),
    )

-- opssl_hkdf_extract is HMAC with the salt as its key, and with as many zeros as a digest has bytes
-- where there is no salt.
pub hkdf_extract_lem :
    (h : HashCalls) (algo : HmacAlgo) (b : ℕ) (salt ikm : List ℕ)
    → IsHash h algo
    → (hkdf_extract h algo (b ∷ salt) ikm ≡ rfc_hmac h algo (b ∷ salt) ikm)
      × (hkdf_extract h algo [] ikm ≡ rfc_hmac h algo (replicate (digest_size algo) 0) ikm)
unfolding hkdf_extract
hkdf_extract_lem h algo b salt ikm law = (
  hmac-rfc_hmac h algo (b ∷ salt) ikm law,
  hmac-rfc_hmac h algo (replicate (digest_size algo) 0) ikm law,
)
