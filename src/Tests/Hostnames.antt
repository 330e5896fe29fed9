-- ===== src/Tests/Hostnames.antt =====
-- The check of host names at concrete inputs.
use opssl.Base.{ℕ, ◌≡◌, ◌↔◌, ◌⊎◌, refl, true, false, some, List, [], ◌∷◌, ◌++◌}
use opssl.Hostname.{
  same, strchr, before, no_dot, cn_start, hostname_matches_pattern, Certificate, stored_san,
  get_san, print_values, get_subject, any_san_matches, check_hostname_match,
}
use opssl.Hostname.Pattern.{Covered, hostname_matches_pattern_iff}
use opssl.Hostname.Identity.{InSubject, KeptOf, check_hostname_match_sound}

-- "www.a.b", "*.a.b", "x.www.a.b" and "O=CN=www.a.b, CN=c"
abbrev www : List ℕ
www = 119 ∷ 119 ∷ 119 ∷ 46 ∷ 97 ∷ 46 ∷ 98 ∷ []

abbrev star : List ℕ
star = 42 ∷ 46 ∷ 97 ∷ 46 ∷ 98 ∷ []

abbrev deeper : List ℕ
deeper = 120 ∷ 46 ∷ 119 ∷ 119 ∷ 119 ∷ 46 ∷ 97 ∷ 46 ∷ 98 ∷ []

abbrev spoof : List ℕ
spoof =
    79 ∷ 61 ∷ 67 ∷ 78 ∷ 61 ∷ 119 ∷ 119 ∷ 119 ∷ 46 ∷ 97 ∷ 46 ∷ 98 ∷ 44 ∷ 32 ∷ 67 ∷ 78 ∷ 61 ∷ 99 ∷ []

star_matches : hostname_matches_pattern www star ≡ true
unfolding hostname_matches_pattern same strchr before no_dot
star_matches = refl

star_one_label : hostname_matches_pattern deeper star ≡ false
unfolding hostname_matches_pattern same strchr before no_dot
star_one_label = refl

-- An organization that is named "O=CN=www.a.b, CN=c": the printed subject has the values only, and what
-- stands in one of them behind "CN=" is taken for the common name.
abbrev spoofed : Certificate
spoofed = record { sans = []; subject = spoof ∷ [] }

spoof_accepted : check_hostname_match www spoofed ≡ true
unfolding check_hostname_match any_san_matches get_subject print_values cn_start
    hostname_matches_pattern same strchr before no_dot
spoof_accepted = refl

-- A common name is not found by itself.
abbrev common : Certificate
common = record { sans = []; subject = (97 ∷ []) ∷ www ∷ [] }

common_refused : check_hostname_match www common ≡ false
unfolding check_hostname_match any_san_matches get_subject print_values cn_start
    hostname_matches_pattern same strchr before no_dot
common_refused = refl

hostname_matches_pattern_iff_example :
    (hostname_matches_pattern www star ≡ true) ↔ ((www ≡ star) ⊎ Covered www star)
hostname_matches_pattern_iff_example = hostname_matches_pattern_iff www star

-- One dNSName, "*.a.b", and one with a NUL in it, "www.a.b\0.c".
abbrev starred : Certificate
starred = record { sans = star ∷ []; subject = [] }

abbrev with_nul : Certificate
with_nul = record { sans = (www ++ (0 ∷ 46 ∷ 99 ∷ [])) ∷ []; subject = [] }

star_accepted : check_hostname_match www starred ≡ true
unfolding check_hostname_match any_san_matches get_san stored_san hostname_matches_pattern same
    strchr before no_dot
star_accepted = refl

-- The name behind the NUL is not compared.
nul_accepted : check_hostname_match www with_nul ≡ true
unfolding check_hostname_match any_san_matches get_san stored_san hostname_matches_pattern same
    strchr before no_dot
nul_accepted = refl

check_hostname_match_sound_example :
    ((front : List (List ℕ)) × (san : List ℕ) × (back : List (List ℕ)) × (text : List ℕ) × (star
          ∷ []
        ≡ front ++ (san ∷ back))
      × KeptOf san text
      × (hostname_matches_pattern www text ≡ true))
    ⊎ ((text : List ℕ) × (name : List ℕ) × (get_subject 512 [] ≡ some text)
        × InSubject text name
        × (hostname_matches_pattern www name ≡ true))
check_hostname_match_sound_example = check_hostname_match_sound www starred star_accepted
