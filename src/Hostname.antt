-- ===== src/Hostname.antt =====
-- The check of a host name in src/x509/chain.c, with the names that src/x509/cert.c gives it. A C string
-- is its bytes before the NUL.
pub mod Pattern
pub mod Identity
use opssl.Base.{
  ℕ, ◌==◌, ◌&&◌, Bool, true, false, Option, none, some, List, [], ◌∷◌, ◌++◌, ◌-◌, take, length, ltb,
  leb, if◌then◌else◌,
}

-- strcmp(a, b) == 0
unfoldable pub same : List ℕ → List ℕ → Bool
same [] [] = true
same [] (y ∷ ys) = false
same (x ∷ xs) [] = false
same (x ∷ xs) (y ∷ ys) = (x == y) && same xs ys

-- strchr: the string from the first such character on.
unfoldable pub strchr : ℕ → List ℕ → Option (List ℕ)
strchr c [] = none
strchr c (x ∷ xs) = let rest = strchr c xs in if x == c then some (x ∷ xs) else rest

-- The characters in front of that.
unfoldable pub before : ℕ → List ℕ → List ℕ
before c [] = []
before c (x ∷ xs) = let rest = before c xs in if x == c then [] else x ∷ rest

-- The loop over the characters in front of the dot: it finds a dot among them or not.
unfoldable pub no_dot : List ℕ → Bool
no_dot [] = true
no_dot (x ∷ xs) = let rest = no_dot xs in if x == 46 then false else rest

abbrev pub from_dot : List ℕ → List ℕ → Option (List ℕ) → Bool
from_dot hostname tail none = false
from_dot hostname tail (some dot) = if same dot tail then no_dot (before 46 hostname) else false

-- `pattern[0] == '*' && pattern[1] == '.'`, and the string from the second character on
abbrev pub wildcard : List ℕ → Option (List ℕ)
wildcard (a ∷ b ∷ rest) = if (a == 42) && (b == 46) then some (b ∷ rest) else none
wildcard (a ∷ []) = none
wildcard [] = none

abbrev pub by_wildcard : List ℕ → Option (List ℕ) → Bool
by_wildcard hostname none = false
by_wildcard hostname (some tail) = from_dot hostname tail (strchr 46 hostname)

unfoldable pub hostname_matches_pattern : List ℕ → List ℕ → Bool
hostname_matches_pattern hostname pattern =
    let rest = by_wildcard hostname (wildcard pattern) in
    if same hostname pattern then true else rest

-- strstr(subject, "CN="), and the three characters behind it: what stands behind the first "CN=".
abbrev pub behind_cn : List ℕ → Option (List ℕ)
behind_cn (a ∷ b ∷ c ∷ rest) = if (a == 67) && ((b == 78) && (c == 61)) then some rest else none
behind_cn (a ∷ b ∷ []) = none
behind_cn (a ∷ []) = none
behind_cn [] = none

abbrev pub or_else : Option (List ℕ) → Option (List ℕ) → Option (List ℕ)
or_else (some found) later = some found
or_else none later = later

unfoldable pub cn_start : List ℕ → Option (List ℕ)
cn_start [] = none
cn_start (x ∷ xs) = or_else (behind_cn (x ∷ xs)) (cn_start xs)

-- The name up to the next comma, where it fits in `cn`.
abbrev pub cut_name : List ℕ → List ℕ → Option (List ℕ) → Bool
cut_name hostname start none = hostname_matches_pattern hostname start
cut_name hostname start (some cn_end) =
    let cn = before 44 start in
    if ltb (length cn) 256 then hostname_matches_pattern hostname cn else false

abbrev pub common_name : List ℕ → Option (List ℕ) → Bool
common_name hostname none = false
common_name hostname (some start) = cut_name hostname start (strchr 44 start)

abbrev pub subject_matches : List ℕ → Option (List ℕ) → Bool
subject_matches hostname none = false
subject_matches hostname (some subject) = common_name hostname (cn_start subject)

abbrev pub san_matches : List ℕ → Option (List ℕ) → Bool
san_matches hostname none = false
san_matches hostname (some san) = hostname_matches_pattern hostname san

-- What the ASN.1 reads of cert.c yield, in order: the contents of the dNSNames, and the values of the
-- attributes of the subject up to the first that is not read.
pub record Certificate : Type 0 where
  pub sans : List (List ℕ)
  pub subject : List (List ℕ)

-- The string that parse_san_extension stores: at most 255 bytes, up to the first NUL.
unfoldable pub stored_san : List ℕ → List ℕ
stored_san name = before 0 (take 255 name)

-- opssl_x509_get_san, into a buffer of `len` bytes
unfoldable pub get_san : ℕ → List ℕ → Option (List ℕ)
get_san len name = let san = stored_san name in if leb len (length san) then none else some san

-- The loop of parse_dn_component, behind the `out` that it has written: the values, with ", " between
-- them, as far as they fit in a buffer of `len` bytes. It prints no names of attributes.
unfoldable pub print_values : ℕ → List ℕ → List (List ℕ) → List ℕ
print_values len out [] = out
print_values len out (value ∷ values) =
    let start =
      if ltb 0 (length out) && ltb (length out) (len - 2) then out ++ (44 ∷ 32 ∷ []) else out in
    let rest = print_values len (start ++ take (len - length start - 1) value) values in
    if ltb (length out) (len - 1) then rest else out

-- opssl_x509_get_subject, into a buffer of `len` bytes
unfoldable pub get_subject : ℕ → List (List ℕ) → Option (List ℕ)
get_subject len values = some (before 0 (print_values len [] values))

-- The loop over the alternative names.
unfoldable pub any_san_matches : List ℕ → List (List ℕ) → Bool
any_san_matches hostname [] = false
any_san_matches hostname (san ∷ sans) =
    let rest = any_san_matches hostname sans in
    if san_matches hostname (get_san 256 san) then true else rest

unfoldable pub check_hostname_match : List ℕ → Certificate → Bool
check_hostname_match hostname cert =
    if any_san_matches hostname cert.sans
    then true
    else subject_matches hostname (get_subject 512 cert.subject)
