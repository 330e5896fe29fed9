-- ===== src/Tests/Protection.antt =====
-- The AEAD, the record layer and base64 at concrete inputs.
use opssl.Base.{
  ℕ, ◌*◌, bit_xor, get_or, ◌+◌, ◌≤◌, ◌<◌, ◌≡◌, ◌↔◌, refl, true, false, some, none, List, [], ◌∷◌,
  ◌++◌, length, take, drop, replicate, map, All, arith, ◌^◌,
}
use opssl.Bytes.{IsByte}
use opssl.Conn.{AeadCtx}
use opssl.Ciphersuite.Table.{chacha20_poly1305}
use opssl.Crypto.LittleEndian.{load32_le, store32_le, store64_le}
use opssl.Crypto.ConstantTime.{ct_eq, diff_loop, ct_min}
use opssl.Crypto.ConstantTime.Equality.{ct_eq_iff}
use opssl.Crypto.ChaCha20.{
  rotl32, half_step, quarter_round, double_round, double_rounds, add_words, chacha20_block,
  store_words, xor_bytes, initial_state, next_state, chacha20_loop, chacha20,
}
use opssl.Crypto.Poly1305.{
  poly1305_init, add_block, products, carry_products, poly1305_blocks, update_rest, poly1305_update,
  last_block, carry_limbs, less_prime, reduced, tag_of, poly1305_final,
}
use opssl.Crypto.ChaCha20.Rfc8439.{chacha20_lem, rfc_stream}
use opssl.Crypto.ChaCha20Poly1305
use opssl.Crypto.ChaCha20Poly1305.Open
use opssl.Crypto.Aead.{Ciphers, calls, calls-IsAead}
use opssl.Record.{RecordState, encrypted, decrypted, next, record_encrypt, record_decrypt}
use opssl.Record.Nonce.{make_nonce_injective}
use opssl.Record.Channel.{IsReady, record_decrypt-encrypt}
use opssl.Record.Exchange.{exchange, exchange_lem}
use opssl.Pem.{
  base64_encode, base64_decode, done, total_len, encode_loop, encode_group, read_bytes, line_break,
  line_start, last_break, decode_loop, decode_char, decode_end, take_value, is_whitespace,
}
use opssl.Pem.Roundtrip.{base64_decode-encode}
use opssl.Pem.Room.{length-base64_encode}

abbrev key : List ℕ
key = replicate 31 7 ++ (9 ∷ [])

abbrev nonce : List ℕ
nonce = 1 ∷ 2 ∷ 3 ∷ 4 ∷ 5 ∷ 6 ∷ 7 ∷ 8 ∷ 9 ∷ 10 ∷ 11 ∷ 12 ∷ []

abbrev hello : List ℕ
hello = 104 ∷ 101 ∷ 108 ∷ 108 ∷ 111 ∷ []

abbrev help : List ℕ
help = 104 ∷ 101 ∷ 108 ∷ 112 ∷ 33 ∷ []

hello-IsByte : All IsByte hello
hello-IsByte = (omega arith, (omega arith, (omega arith, (omega arith, (omega arith, tt)))))

help-IsByte : All IsByte help
help-IsByte = (omega arith, (omega arith, (omega arith, (omega arith, (omega arith, tt)))))

ct_eq_iff_example : (ct_eq hello help 4 ≡ 1) ↔ (take 4 hello ≡ take 4 help)
ct_eq_iff_example = ct_eq_iff hello help 4 hello-IsByte help-IsByte (omega arith) (omega arith)

chacha20_lem_example :
    (length (chacha20 hello key nonce 1) ≡ 5)
    × (length (rfc_stream 5 key nonce 1) ≡ 64 * 5)
    × (get_or (chacha20 hello key nonce 1) 2 0
        ≡ bit_xor 108 (get_or (rfc_stream 5 key nonce 1) 2 0))
chacha20_lem_example = chacha20_lem hello key nonce 1 2 (omega arith)

open-seal_example :
    (sealed : List ℕ) × (ChaCha20Poly1305.seal 21 key nonce hello (23 ∷ []) ≡ some sealed)
    × (length sealed ≡ 5 + 16)
    × (ChaCha20Poly1305.open_ 5 key nonce sealed (23 ∷ []) ≡ some hello)
open-seal_example =
    Open.open-seal 21 5 key nonce hello (23 ∷ []) (omega arith) (omega arith) (omega arith)

abbrev hello_sealed : List ℕ
hello_sealed =
    86 ∷ 27 ∷ 219 ∷ 178 ∷ 23 ∷ 121 ∷ 24 ∷ 133 ∷ 243 ∷ 180 ∷ 36 ∷ 140 ∷ 8 ∷ 89 ∷ 29 ∷ 227 ∷ 147 ∷ 80
    ∷ 152 ∷ 211 ∷ 82 ∷ []

hello_opened : ChaCha20Poly1305.open_ 5 key nonce hello_sealed (23 ∷ []) ≡ some hello
unfolding ChaCha20Poly1305.open_ ChaCha20Poly1305.compute_tag ChaCha20Poly1305.pad16 ct_eq diff_loop
    store64_le load32_le store32_le rotl32 half_step quarter_round double_round double_rounds
    add_words chacha20_block store_words xor_bytes initial_state next_state chacha20_loop chacha20
    poly1305_init add_block products carry_products poly1305_blocks update_rest poly1305_update
    last_block carry_limbs less_prime reduced tag_of poly1305_final
hello_opened = refl

hello_sealed-IsByte : All IsByte hello_sealed
hello_sealed-IsByte = (
  omega arith,
  (
    omega arith,
    (
      omega arith,
      (
        omega arith,
        (
          omega arith,
          (
            omega arith,
            (
              omega arith,
              (
                omega arith,
                (
                  omega arith,
                  (
                    omega arith,
                    (
                      omega arith,
                      (
                        omega arith,
                        (
                          omega arith,
                          (
                            omega arith,
                            (
                              omega arith,
                              (
                                omega arith,
                                (
                                  omega arith,
                                  (omega arith, (omega arith, (omega arith, (omega arith, tt)))),
                                ),
                              ),
                            ),
                          ),
                        ),
                      ),
                    ),
                  ),
                ),
              ),
            ),
          ),
        ),
      ),
    ),
  ),
)

seal-open_example :
    (ChaCha20Poly1305.seal 21 key nonce hello (23 ∷ []) ≡ some hello_sealed) × (length hello ≤ 5)
seal-open_example =
    Open.seal-open 5 key nonce hello_sealed (23 ∷ []) hello hello_sealed-IsByte (omega arith)
      hello_opened

-- A context of ChaCha20-Poly1305, beside algorithms that always fail.
abbrev no_others : Ciphers
no_others = record {
  aes_ccm_seal = λ tag_len max_out key key_len nonce text aad. none;
  aes_ccm_open = λ tag_len max_out key key_len nonce text aad. none;
  camellia_gcm_seal = λ max_out key key_len nonce text aad. none;
  camellia_gcm_open = λ max_out key key_len nonce text aad. none;
  aes_gcm_seal = λ max_out key key_len nonce text aad. none;
  aes_gcm_open = λ max_out key key_len nonce text aad. none;
}

abbrev context : AeadCtx
context = record { algo = chacha20_poly1305; key = key; key_len = 32 }

abbrev new_state : RecordState
new_state = record { cipher = some context; iv = nonce; seq = 3; is_tls13 = true }

abbrev old_state : RecordState
old_state = record { cipher = some context; iv = nonce; seq = 3; is_tls13 = false }

old_state-IsReady : IsReady context old_state
old_state-IsReady = record { keyed = refl; iv_size = refl; left = omega arith }

abbrev room : List ℕ
room = replicate 13 0 ++ (hello ++ replicate 16 0)

-- A record of TLS 1.2, with two bytes of the next one behind it.
record_decrypt-encrypt_example :
    (total : ℕ) × (buf' : List ℕ) × (opened : List ℕ) × (record_encrypt
        (calls no_others)
        old_state
        room
        22
        5
      ≡ (next old_state, (buf', encrypted total)))
    × (record_decrypt (calls no_others) old_state (take total buf' ++ (22 ∷ 3 ∷ [])) (total + 2)
        ≡ (next old_state, (opened, decrypted 5 22)))
    × (take 5 (drop 5 opened) ≡ hello)
record_decrypt-encrypt_example =
    record_decrypt-encrypt (calls no_others) context old_state room (22 ∷ 3 ∷ []) 22 5 2
      (calls-IsAead no_others context refl) old_state-IsReady (omega arith) (omega arith)
      (omega arith)

abbrev talk : List (ℕ × List ℕ)
talk = (22, help) ∷ (23, hello) ∷ (21, 1 ∷ 0 ∷ []) ∷ []

exchange_lem_example : exchange (calls no_others) new_state new_state talk ≡ map (λ m. some m) talk
exchange_lem_example =
    exchange_lem (calls no_others) context new_state talk (calls-IsAead no_others context refl) refl
      refl (omega arith)
      ((omega arith, omega arith), ((omega arith, omega arith), ((omega arith, omega arith), tt)))

make_nonce_injective_example : ◌≡◌ {A = ℕ} 3 3
make_nonce_injective_example =
    make_nonce_injective new_state 3 3 refl (omega arith) (omega arith) refl

base64_decode-encode_example :
    (text : List ℕ) × (base64_encode hello 10 ≡ done text) × (base64_decode text 5 ≡ done hello)
base64_decode-encode_example =
    base64_decode-encode hello 10 5 hello-IsByte (omega arith) (omega arith)

-- aGVsbG8= and a line break
abbrev hello_text : List ℕ
hello_text = 97 ∷ 71 ∷ 86 ∷ 115 ∷ 98 ∷ 71 ∷ 56 ∷ 61 ∷ 10 ∷ []

hello_encoded : base64_encode hello 10 ≡ done hello_text
unfolding base64_encode encode_loop encode_group read_bytes line_break line_start last_break
hello_encoded = refl

hello_decoded : base64_decode hello_text 5 ≡ done hello
unfolding base64_decode decode_loop decode_char decode_end take_value is_whitespace
hello_decoded = refl

length-base64_encode_example : (length hello_text ≡ total_len 5) × (length hello_text < 10)
length-base64_encode_example = length-base64_encode hello hello_text 10 hello_encoded

-- Words that are further apart.
ct_min_wrong : ct_min (2 ^ 63) 0 ≡ 2 ^ 63
unfolding ct_min
ct_min_wrong = refl
