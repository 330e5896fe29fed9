-- ===== src/KeySchedule/Label.antt =====
-- The labels of src/tls/keysched.c and src/tls/tls13.c, as bytes: "derived", "key", "iv", "finished",
-- "traffic upd", "c hs traffic", "s hs traffic", "c ap traffic", "s ap traffic", "exp master" and
-- "exporter".
use opssl.Base.{ℕ, List, [], ◌∷◌}

abbrev pub derived : List ℕ
derived = 100 ∷ 101 ∷ 114 ∷ 105 ∷ 118 ∷ 101 ∷ 100 ∷ []

abbrev pub key : List ℕ
key = 107 ∷ 101 ∷ 121 ∷ []

abbrev pub iv : List ℕ
iv = 105 ∷ 118 ∷ []

abbrev pub finished : List ℕ
finished = 102 ∷ 105 ∷ 110 ∷ 105 ∷ 115 ∷ 104 ∷ 101 ∷ 100 ∷ []

abbrev pub traffic_upd : List ℕ
traffic_upd = 116 ∷ 114 ∷ 97 ∷ 102 ∷ 102 ∷ 105 ∷ 99 ∷ 32 ∷ 117 ∷ 112 ∷ 100 ∷ []

abbrev pub c_hs_traffic : List ℕ
c_hs_traffic = 99 ∷ 32 ∷ 104 ∷ 115 ∷ 32 ∷ 116 ∷ 114 ∷ 97 ∷ 102 ∷ 102 ∷ 105 ∷ 99 ∷ []

abbrev pub s_hs_traffic : List ℕ
s_hs_traffic = 115 ∷ 32 ∷ 104 ∷ 115 ∷ 32 ∷ 116 ∷ 114 ∷ 97 ∷ 102 ∷ 102 ∷ 105 ∷ 99 ∷ []

abbrev pub c_ap_traffic : List ℕ
c_ap_traffic = 99 ∷ 32 ∷ 97 ∷ 112 ∷ 32 ∷ 116 ∷ 114 ∷ 97 ∷ 102 ∷ 102 ∷ 105 ∷ 99 ∷ []

abbrev pub s_ap_traffic : List ℕ
s_ap_traffic = 115 ∷ 32 ∷ 97 ∷ 112 ∷ 32 ∷ 116 ∷ 114 ∷ 97 ∷ 102 ∷ 102 ∷ 105 ∷ 99 ∷ []

abbrev pub exp_master : List ℕ
exp_master = 101 ∷ 120 ∷ 112 ∷ 32 ∷ 109 ∷ 97 ∷ 115 ∷ 116 ∷ 101 ∷ 114 ∷ []

abbrev pub exporter : List ℕ
exporter = 101 ∷ 120 ∷ 112 ∷ 111 ∷ 114 ∷ 116 ∷ 101 ∷ 114 ∷ []
