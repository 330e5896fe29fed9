-- ===== src/Ciphersuite/Table.antt =====
-- The cipher suites of src/tls/ciphersuite.c, as the array lists them.
use Prim.Native.Char.{code}
use Prim.Native.String.{String}
use opssl.Base.{ℕ, Bool, true, false, List, [], ◌∷◌, ◌++◌, ◌==◌, ◌&&◌}

-- opssl_aead_algo_t
pub data Aead : Type 0 where
  aes_128_gcm aes_256_gcm chacha20_poly1305 aes_128_ccm aes_256_ccm aes_128_ccm_8 aes_256_ccm_8
        camellia_128_gcm camellia_256_gcm :
      Aead

-- opssl_hmac_algo_t, as far as the table uses it
pub data Hash : Type 0 where
  sha256 sha384 : Hash

-- opssl_ciphersuite_info_t
pub record Suite : Type 0 where
  pub id : ℕ
  pub name : List ℕ
  pub aead : Aead
  pub hash : Hash
  pub key_len : ℕ
  pub iv_len : ℕ
  pub tag_len : ℕ
  pub is_tls13 : Bool

-- The bytes of a text of ASCII characters.
abbrev pub codes : String → List ℕ
codes String.[] = []
codes (String.◌∷◌ c s) = code c ∷ codes s

-- strcmp(a, b) == 0
abbrev pub same_text : List ℕ → List ℕ → Bool
same_text [] [] = true
same_text [] (y ∷ ys) = false
same_text (x ∷ xs) [] = false
same_text (x ∷ xs) (y ∷ ys) = x == y && same_text xs ys

abbrev suite : ℕ → String → Aead → Hash → ℕ → ℕ → ℕ → Bool → Suite
suite i n a h k v t b = record {
  id = i;
  name = codes n;
  aead = a;
  hash = h;
  key_len = k;
  iv_len = v;
  tag_len = t;
  is_tls13 = b;
}

-- The rows for TLS 1.3, and those for TLS 1.2.
abbrev tls13_suites : List Suite
tls13_suites =
    suite 0x1302 "TLS_AES_256_GCM_SHA384" aes_256_gcm sha384 32 12 16 true
    ∷ suite 0x1303 "TLS_CHACHA20_POLY1305_SHA256" chacha20_poly1305 sha256 32 12 16 true
    ∷ suite 0x1301 "TLS_AES_128_GCM_SHA256" aes_128_gcm sha256 16 12 16 true
    ∷ suite 0x1304 "TLS_AES_128_CCM_SHA256" aes_128_ccm sha256 16 12 16 true
    ∷ suite 0x1305 "TLS_AES_128_CCM_8_SHA256" aes_128_ccm_8 sha256 16 12 8 true
    ∷ suite 0xC0B0 "TLS_AES_256_CCM_SHA384" aes_256_ccm sha384 32 12 16 true
    ∷ suite 0xC0B1 "TLS_AES_256_CCM_8_SHA384" aes_256_ccm_8 sha384 32 12 8 true
    ∷ suite 0xC0B3 "TLS_CAMELLIA_256_GCM_SHA384" camellia_256_gcm sha384 32 12 16 true
    ∷ suite 0xC0B2 "TLS_CAMELLIA_128_GCM_SHA256" camellia_128_gcm sha256 16 12 16 true
    ∷ []

abbrev tls12_suites : List Suite
tls12_suites =
    suite 0xC02C "TLS_ECDHE_ECDSA_WITH_AES_256_GCM_SHA384" aes_256_gcm sha384 32 12 16 false
    ∷ suite 0xC030 "TLS_ECDHE_RSA_WITH_AES_256_GCM_SHA384" aes_256_gcm sha384 32 12 16 false
    ∷ suite 0xCCA9 "TLS_ECDHE_ECDSA_WITH_CHACHA20_POLY1305_SHA256" chacha20_poly1305 sha256 32 12 16
        false
    ∷ suite 0xCCA8 "TLS_ECDHE_RSA_WITH_CHACHA20_POLY1305_SHA256" chacha20_poly1305 sha256 32 12 16
        false
    ∷ suite 0xC02B "TLS_ECDHE_ECDSA_WITH_AES_128_GCM_SHA256" aes_128_gcm sha256 16 12 16 false
    ∷ suite 0xC02F "TLS_ECDHE_RSA_WITH_AES_128_GCM_SHA256" aes_128_gcm sha256 16 12 16 false
    ∷ suite 0xC0AD "TLS_ECDHE_ECDSA_WITH_AES_256_CCM" aes_256_ccm sha256 32 12 16 false
    ∷ suite 0xC0AC "TLS_ECDHE_ECDSA_WITH_AES_128_CCM" aes_128_ccm sha256 16 12 16 false
    ∷ suite 0xC09F "TLS_DHE_RSA_WITH_AES_256_CCM" aes_256_ccm sha256 32 12 16 false
    ∷ suite 0xC09E "TLS_DHE_RSA_WITH_AES_128_CCM" aes_128_ccm sha256 16 12 16 false
    ∷ suite 0xC0A1 "TLS_DHE_RSA_WITH_AES_256_CCM_8" aes_256_ccm_8 sha256 32 12 8 false
    ∷ suite 0xC0A0 "TLS_DHE_RSA_WITH_AES_128_CCM_8" aes_128_ccm_8 sha256 16 12 8 false
    ∷ suite 0x009F "TLS_DHE_RSA_WITH_AES_256_GCM_SHA384" aes_256_gcm sha384 32 12 16 false
    ∷ suite 0xCCAA "TLS_DHE_RSA_WITH_CHACHA20_POLY1305_SHA256" chacha20_poly1305 sha256 32 12 16
        false
    ∷ suite 0x009E "TLS_DHE_RSA_WITH_AES_128_GCM_SHA256" aes_128_gcm sha256 16 12 16 false
    ∷ suite 0xC0AF "TLS_ECDHE_ECDSA_WITH_AES_256_CCM_8" aes_256_ccm_8 sha256 32 12 8 false
    ∷ suite 0xC0AE "TLS_ECDHE_ECDSA_WITH_AES_128_CCM_8" aes_128_ccm_8 sha256 16 12 8 false
    ∷ suite 0xC087 "TLS_ECDHE_ECDSA_WITH_CAMELLIA_256_GCM_SHA384" camellia_256_gcm sha384 32 12 16
        false
    ∷ suite 0xC08B "TLS_ECDHE_RSA_WITH_CAMELLIA_256_GCM_SHA384" camellia_256_gcm sha384 32 12 16
        false
    ∷ suite 0xC086 "TLS_ECDHE_ECDSA_WITH_CAMELLIA_128_GCM_SHA256" camellia_128_gcm sha256 16 12 16
        false
    ∷ suite 0xC08A "TLS_ECDHE_RSA_WITH_CAMELLIA_128_GCM_SHA256" camellia_128_gcm sha256 16 12 16
        false
    ∷ suite 0xC07D "TLS_DHE_RSA_WITH_CAMELLIA_256_GCM_SHA384" camellia_256_gcm sha384 32 12 16 false
    ∷ suite 0xC07C "TLS_DHE_RSA_WITH_CAMELLIA_128_GCM_SHA256" camellia_128_gcm sha256 16 12 16 false
    ∷ []

unfoldable pub cipher_suites : List Suite
cipher_suites = tls13_suites ++ tls12_suites
