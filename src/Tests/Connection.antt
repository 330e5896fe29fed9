-- ===== src/Tests/Connection.antt =====
-- The replay window, the cipher suites and the export of a session, at concrete inputs.
use opssl.Base.{
  ℕ, ◌<◌, ◌≤◌, ◌≡◌, refl, ◌⊎◌, inl, inr, List, [], ◌∷◌, true, none, some, length, take, map, All,
  arith,
}
use opssl.Dtls.Replay.{fresh, replay_run}
use opssl.Dtls.Replay.Refine.{judge_run, empty_history, replay_run_refines}
use opssl.Ciphersuite.{find_in, find, name, params_of, get_params, parse_list}
use opssl.Ciphersuite.Table.{Suite, chacha20_poly1305, sha256, codes, cipher_suites}
use opssl.Ciphersuite.Lookup.{Listed}
use opssl.Ciphersuite.ParseList.{IsKnown, parse_list-total}
use opssl.Ciphersuite.ParseNames.{join, parse_list-join}

-- A first record, one far ahead, late ones, repeats, and one that has left the window.
abbrev some_records : List ℕ
some_records = 5 ∷ 300 ∷ 299 ∷ 299 ∷ 300 ∷ 5 ∷ 44 ∷ 45 ∷ []

replay_run_refines_example : replay_run some_records fresh ≡ judge_run some_records empty_history
replay_run_refines_example = replay_run_refines some_records

abbrev chacha : Suite
chacha = record {
  id = 0x1303;
  name = codes "TLS_CHACHA20_POLY1305_SHA256";
  aead = chacha20_poly1305;
  hash = sha256;
  key_len = 32;
  iv_len = 12;
  tag_len = 16;
  is_tls13 = true;
}

chacha_found : find 0x1303 ≡ some chacha
unfolding find find_in cipher_suites
chacha_found = refl

chacha_name : name 0x1303 ≡ some (codes "TLS_CHACHA20_POLY1305_SHA256")
unfolding name find find_in cipher_suites
chacha_name = refl

chacha_params : get_params 0x1303 ≡ some (params_of chacha)
unfolding get_params find find_in cipher_suites
chacha_params = refl

parse_list-total_example :
    (parse_list (codes "A:TLS_AES_128_GCM_SHA256 ") 4 ≡ some none)
    ⊎ ((ids : List ℕ) × (parse_list (codes "A:TLS_AES_128_GCM_SHA256 ") 4 ≡ some (some ids))
        × (0 < length ids)
        × (length ids ≤ 4)
        × All IsKnown ids)
parse_list-total_example = parse_list-total (codes "A:TLS_AES_128_GCM_SHA256 ") 4

chacha-Listed : Listed chacha cipher_suites
unfolding cipher_suites
chacha-Listed = inr (inl refl)

parse_list-join_example :
    parse_list (join (chacha ∷ chacha ∷ [])) 4
    ≡ some (some (take 4 (map (λ s. s.id) (chacha ∷ chacha ∷ []))))
parse_list-join_example =
    parse_list-join chacha (chacha ∷ []) 4 (chacha-Listed, (chacha-Listed, tt)) (omega arith)
