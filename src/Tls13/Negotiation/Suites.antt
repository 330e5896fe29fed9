-- ===== src/Tls13/Negotiation/Suites.antt =====
-- The choice of the cipher suite, as a choice on lists of numbers.
use opssl.Base.{ℕ, ◌==◌, Bool, true, false, Option, none, some, List, [], ◌∷◌, ◌++◌, if◌then◌else◌}
use opssl.Bytes.{put_be16}
use opssl.Cbs.{Cbs}

-- A list of suites on the wire.
abbrev pub suite_bytes : List ℕ → List ℕ
suite_bytes [] = []
suite_bytes (s ∷ suites) = put_be16 s ++ suite_bytes suites

abbrev pub contains : ℕ → List ℕ → Bool
contains wanted [] = false
contains wanted (s ∷ suites) = if s == wanted then true else contains wanted suites

-- The first of the preferences that is on the client's list.
abbrev pub first_common : List ℕ → List ℕ → Option ℕ
first_common [] suites = none
first_common (wanted ∷ later) suites =
    if contains wanted suites then some wanted else first_common later suites
