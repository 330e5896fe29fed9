-- ===== src/Crypto/Hmac/Rfc2104.antt =====
-- HMAC as RFC 2104 defines it, and that src/crypto/hmac.c computes it.
use opssl.Base.{
  concat, ℕ, zero, suc, ◌+◌, ◌-◌, ◌≤◌, ◌≡◌, refl, ap, ◌∙◌, Bool-cases, inl, inr, List, [], ◌∷◌,
  ◌++◌, length, take, replicate, ltb, if◌then◌else◌, append-nil, arith,
}
use opssl.Crypto.Hmac.{
  HmacAlgo, hmac_sha1, hmac_sha256, hmac_sha384, hmac_sha512, HashCalls, HmacCtx, block_size,
  digest_size, pad_with, key_block, hmac_init, hmac_update, hmac_final, hmac_updates, hmac,
}

abbrev pub absorbed :
    (h : HashCalls) (algo : HmacAlgo) → h.State algo → List (List ℕ) → h.State algo
absorbed h algo s [] = s
absorbed h algo s (bytes ∷ later) = absorbed h algo (h.absorb algo s bytes) later

-- What a hash function promises: however a message is cut into pieces, the streaming calls make the
-- digest of the whole, and a digest has the size that is stated for it.
pub record IsHash (h : HashCalls) (algo : HmacAlgo) : Type 0 where
  pub streams :
      (pieces : List (List ℕ))
      → h.finish algo (absorbed h algo (h.start algo) pieces) ≡ h.digest algo (concat pieces)
  pub size : (message : List ℕ) → length (h.digest algo message) ≡ digest_size algo

-- The key of RFC 2104: hashed where it is longer than a block, and filled up with zeros.
abbrev pub rfc_key : HashCalls → HmacAlgo → List ℕ → List ℕ
rfc_key h algo key =
    let short = if ltb (block_size algo) (length key) then h.digest algo key else key in
    short ++ replicate (block_size algo - length short) 0

-- H(K xor opad, H(K xor ipad, text))
abbrev pub rfc_hmac : HashCalls → HmacAlgo → List ℕ → List ℕ → List ℕ
rfc_hmac h algo key text =
    let k = rfc_key h algo key in
    h.digest algo (pad_with 0x5c k ++ h.digest algo (pad_with 0x36 k ++ text))

take-zeros :
    (n m : ℕ) (xs : List ℕ)
    → length xs ≤ n
    → n ≤ length xs + m
    → take n (xs ++ replicate m 0) ≡ xs ++ replicate (n - length xs) 0
take-zeros zero m [] h k = refl
take-zeros zero m (x ∷ xs) h k = absurd (omega arith)
take-zeros (suc n) zero [] h k = absurd (omega arith)
take-zeros (suc n) (suc m) [] h k =
    ap (λ l. 0 ∷ l) (take-zeros n m [] (omega arith) (omega arith))
    ∙ ap (λ k. replicate k 0) {x = suc (n - 0)} {y = suc n - 0} (omega arith)
take-zeros (suc n) m (x ∷ xs) h k =
    ap (λ l. x ∷ l) (take-zeros n m xs (omega arith) (omega arith))
    ∙ ap (λ k. x ∷ (xs ++ replicate k 0)) {x = n - length xs} {y = suc n - suc (length xs)}
        (omega arith)

sizes : (algo : HmacAlgo) → (digest_size algo ≤ block_size algo) × (block_size algo ≤ 128)
sizes hmac_sha1 = (omega arith, omega arith)
sizes hmac_sha256 = (omega arith, omega arith)
sizes hmac_sha384 = (omega arith, omega arith)
sizes hmac_sha512 = (omega arith, omega arith)

key_block_lem :
    (h : HashCalls) (algo : HmacAlgo) (key : List ℕ)
    → IsHash h algo
    → key_block h algo key ≡ rfc_key h algo key
unfolding key_block
key_block_lem h algo key law = elim (Bool-cases (ltb (block_size algo) (length key))) [
  | inl e ↦ rw e (
      take-zeros (block_size algo) 128 (h.digest algo key) (omega (arith, law.size key, sizes algo))
        (omega (arith, sizes algo)))
  | inr e ↦
      let short : length key ≤ block_size algo = ground arith in
      rw e (take-zeros (block_size algo) 128 key short (omega (arith, sizes algo)))
]

inner-hmac_updates :
    (h : HashCalls) (algo : HmacAlgo) (ctx : HmacCtx h algo) (pieces : List (List ℕ))
    → ((hmac_updates h algo ctx pieces).inner ≡ absorbed h algo ctx.inner pieces)
      × ((hmac_updates h algo ctx pieces).key_pad ≡ ctx.key_pad)
unfolding hmac_updates hmac_update
inner-hmac_updates h algo ctx [] = (refl, refl)
inner-hmac_updates h algo ctx (bytes ∷ later) =
    inner-hmac_updates h algo (hmac_update h algo ctx bytes) later

-- Over a hash function that streams, opssl_hmac_init, any calls of opssl_hmac_update and
-- opssl_hmac_final compute the HMAC of RFC 2104 of all their pieces together, for every algorithm and
-- for keys of any length.
pub hmac_final-hmac_updates :
    (h : HashCalls) (algo : HmacAlgo) (key : List ℕ) (pieces : List (List ℕ))
    → IsHash h algo
    → hmac_final h algo (hmac_updates h algo (hmac_init h algo key) pieces)
      ≡ rfc_hmac h algo key (concat pieces)
unfolding hmac_final hmac_init
hmac_final-hmac_updates h algo key pieces law =
    let ctx = hmac_init h algo key in
    let (inner, pad) = inner-hmac_updates h algo ctx pieces in
    let block = key_block_lem h algo key law in
    let ipad = pad_with 0x36 (key_block h algo key) in
    let opad = pad_with 0x5c (key_block h algo key) in
    let inner_hash = h.digest algo (ipad ++ concat pieces) in
    (λ i.
      h.finish algo
        (h.absorb algo (h.absorb algo (h.start algo) (pad i)) (h.finish algo (inner i))))
    ∙ ap (λ d. h.finish algo (h.absorb algo (h.absorb algo (h.start algo) opad) d))
        (law.streams (ipad ∷ pieces))
    ∙ law.streams (opad ∷ inner_hash ∷ [])
    ∙ ap (λ l. h.digest algo (opad ++ l)) (append-nil inner_hash)
    ∙ ap (λ k. h.digest algo (pad_with 0x5c k ++ h.digest algo (pad_with 0x36 k ++ concat pieces)))
        block

pub hmac-rfc_hmac :
    (h : HashCalls) (algo : HmacAlgo) (key message : List ℕ)
    → IsHash h algo
    → hmac h algo key message ≡ rfc_hmac h algo key message
unfolding hmac hmac_updates
hmac-rfc_hmac h algo key message law =
    hmac_final-hmac_updates h algo key (message ∷ []) law
    ∙ ap (rfc_hmac h algo key) (append-nil message)

pub length-rfc_hmac :
    (h : HashCalls) (algo : HmacAlgo) (key message : List ℕ)
    → IsHash h algo
    → length (rfc_hmac h algo key message) ≡ digest_size algo
length-rfc_hmac h algo key message law = law.size _
