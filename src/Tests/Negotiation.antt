-- ===== src/Tests/Negotiation.antt =====
-- What a server picks from a ClientHello, at concrete inputs.
use opssl.Base.{ℕ, ◌≡◌, refl, List, [], ◌∷◌, replicate, arith}
use opssl.Bytes.{put_be16}
use opssl.Cbs.{Cbs}
use opssl.Cbs.Bounds.{IsValid}
use opssl.Tls13.Negotiation.{parse_key_share_extension}
use opssl.Tls13.Negotiation.Shares.{first_usable, parse_key_share_extension_lem}

-- A client that offers AES-128-GCM and then ChaCha20, and an odd byte.
abbrev offer : Cbs
offer = record { bytes = 0x13 ∷ 0x01 ∷ 0x13 ∷ 0x03 ∷ 5 ∷ []; len = 5 }

-- A share of an unknown group, and one of X25519.
abbrev share_key : List ℕ
share_key = replicate 32 6

abbrev shares : Cbs
shares = record { bytes = 0 ∷ 41 ∷ 9 ∷ 9 ∷ 0 ∷ 1 ∷ 4 ∷ 0 ∷ 0x1D ∷ 0 ∷ 32 ∷ share_key; len = 43 }

shares-IsValid : IsValid shares
shares-IsValid = (
  omega arith,
  (
    omega arith,
    (
      omega arith,
      (
        omega arith,
        (
          omega arith,
          (
            omega arith,
            (
              omega arith,
              (
                omega arith,
                (
                  omega arith,
                  (
                    omega arith,
                    (
                      omega arith,
                      (
                        omega arith,
                        (
                          omega arith,
                          (
                            omega arith,
                            (
                              omega arith,
                              (
                                omega arith,
                                (
                                  omega arith,
                                  (
                                    omega arith,
                                    (
                                      omega arith,
                                      (
                                        omega arith,
                                        (
                                          omega arith,
                                          (
                                            omega arith,
                                            (
                                              omega arith,
                                              (
                                                omega arith,
                                                (
                                                  omega arith,
                                                  (
                                                    omega arith,
                                                    (
                                                      omega arith,
                                                      (
                                                        omega arith,
                                                        (
                                                          omega arith,
                                                          (
                                                            omega arith,
                                                            (
                                                            omega arith,
                                                            (
                                                            omega arith,
                                                            (
                                                            omega arith,
                                                            (
                                                            omega arith,
                                                            (
                                                            omega arith,
                                                            (
                                                            omega arith,
                                                            (
                                                            omega arith,
                                                            (
                                                            omega arith,
                                                            (
                                                            omega arith,
                                                            (
                                                            omega arith,
                                                            (
                                                            omega arith,
                                                            (
                                                            omega arith,
                                                            (omega arith, (omega arith, tt)),
                                                            ),
                                                            ),
                                                            ),
                                                            ),
                                                            ),
                                                            ),
                                                            ),
                                                            ),
                                                            ),
                                                            ),
                                                            ),
                                                            ),
                                                          ),
                                                        ),
                                                      ),
                                                    ),
                                                  ),
                                                ),
                                              ),
                                            ),
                                          ),
                                        ),
                                      ),
                                    ),
                                  ),
                                ),
                              ),
                            ),
                          ),
                        ),
                      ),
                    ),
                  ),
                ),
              ),
            ),
          ),
        ),
      ),
    ),
  ),
)

parse_key_share_extension_lem_example :
    parse_key_share_extension 3 shares ≡ first_usable ((0x0909, 4 ∷ []) ∷ (0x001D, share_key) ∷ [])
unfolding put_be16
parse_key_share_extension_lem_example =
    parse_key_share_extension_lem 3 shares ((0x0909, 4 ∷ []) ∷ (0x001D, share_key) ∷ []) []
      shares-IsValid ((omega arith, omega arith), ((omega arith, omega arith), tt)) (omega arith)
      refl (omega arith)
