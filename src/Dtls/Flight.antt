-- ===== src/Dtls/Flight.antt =====
-- The flight buffer, for retransmission: dtls_flight_append and dtls_flight_clear. `bytes` is what
-- the first `flight_len` bytes of the buffer hold; nothing reads what lies behind them. Memory is
-- there.
use opssl.Base.{
  ℕ, zero, suc, ◌+◌, ◌*◌, ◌≤◌, ◌<◌, ◌^◌, ◌≡◌, refl, sym, Bool, true, false, Option, none, some,
  List, [], ◌∷◌, ◌++◌, length, ltb, ◌==◌, if◌then◌else◌, if-cases, length-append, arith, ltb→le,
  ltb→lt, ◌⊎◌, inl, inr, le→ltb, ==_iff, append-nil,
}
use opssl.Base.Bits.{double_power}

abbrev pub flight_buf_max : ℕ
flight_buf_max = 131072

pub record Flight : Type 0 where
  pub bytes : List ℕ
  pub cap : ℕ

-- `while (new_cap < new_len) new_cap *= 2`, with `fuel` rounds: `none` means that they ran out.
unfoldable pub grow : ℕ → ℕ → ℕ → Option ℕ
grow zero new_len cap = none
grow (suc fuel) new_len cap =
    let more = grow fuel new_len (cap * 2) in if ltb cap new_len then more else some cap

abbrev pub first_cap : ℕ → ℕ
first_cap cap = if cap == 0 then 4096 else cap * 2

abbrev pub limited : ℕ → ℕ
limited cap = if ltb flight_buf_max cap then flight_buf_max else cap

abbrev pub with_cap : Flight → List ℕ → Option ℕ → Option (Flight × Bool)
with_cap f extra none = none
with_cap f extra (some cap) = some (record { bytes = f.bytes ++ extra; cap = limited cap }, true)

-- dtls_flight_append: the buffer that it leaves, and whether it returns 0. The sizes stay below
-- 2^18, so that no `size_t` wraps.
unfoldable pub append : List ℕ → Flight → Option (Flight × Bool)
append extra f =
    let new_len = length f.bytes + length extra in
    let grown = with_cap f extra (grow 19 new_len (first_cap f.cap)) in
    if length extra == 0
    then some (f, true)
    else if ltb flight_buf_max new_len
    then some (f, false)
    else if ltb f.cap new_len
    then grown
    else some (record f { bytes = f.bytes ++ extra }, true)

-- dtls_flight_clear
unfoldable pub clear : Flight → Flight
clear f = record f { bytes = [] }

-- The buffer has room for what it holds, and is within its limit.
pub record IsFlight (f : Flight) : Type 0 where
  pub room : length f.bytes ≤ f.cap
  pub limit : f.cap ≤ flight_buf_max

grow_lem :
    (fuel new_len cap : ℕ)
    → new_len ≤ cap * 2 ^ fuel
    → (c : ℕ) × (grow (suc fuel) new_len cap ≡ some c) × (new_len ≤ c)
unfolding grow
grow_lem zero new_len cap h =
    let enough : ltb cap new_len ≡ false = le→ltb cap new_len (omega arith) in
    rw enough (cap, refl, omega arith)
grow_lem (suc fuel) new_len cap h =
    if-cases (λ r. (c : ℕ) × (r ≡ some c) × (new_len ≤ c)) (ltb cap new_len) _ (some cap)
      (λ short. grow_lem fuel new_len (cap * 2) (omega (arith, double_power cap fuel)))
      (λ enough. (cap, refl, ltb→le cap new_len enough))

limited_lem : (n c : ℕ) → n ≤ c → n ≤ 131072 → (n ≤ limited c) × (limited c ≤ 131072)
limited_lem n c h k = ground arith

first_cap_lem : (cap : ℕ) → 1 ≤ first_cap cap
first_cap_lem cap = ground arith

nothing : (bs : List ℕ) → length bs ≡ 0 → bs ≡ []
nothing [] e = refl
nothing (b ∷ bs) e = let absurd : ⊥ = omega arith in elim absurd [ ]

abbrev Appended : List ℕ → Flight → Option (Flight × Bool) → Type 0
Appended extra f r =
    (length f.bytes + length extra ≤ 131072
      × ((f' : Flight) × (r ≡ some (f', true)) × (f'.bytes ≡ f.bytes ++ extra) × IsFlight f'))
    ⊎ (131072 < length f.bytes + length extra × (r ≡ some (f, false)))

-- An append ends, whatever the buffer is like. It fails, and changes nothing, exactly if there would
-- be more bytes than the limit; or else they stand at the end, and the buffer keeps its room.
pub append_lem :
    (extra : List ℕ) (f : Flight)
    → IsFlight f
    → (length f.bytes + length extra ≤ 131072
        × ((f' : Flight) × (append extra f ≡ some (f', true))
            × (f'.bytes ≡ f.bytes ++ extra)
            × IsFlight f'))
      ⊎ (131072 < length f.bytes + length extra × (append extra f ≡ some (f, false)))
unfolding append
append_lem extra f ok =
    let size = length-append f.bytes extra in
    let P = Appended extra f in
    if-cases P (length extra == 0) _ _
      (λ e.
        let none_left = nothing extra ((==_iff (length extra) 0).0 e) in
        inl (
          omega (arith, (==_iff (length extra) 0).0 e, ok.room, ok.limit),
          (f, refl, rw none_left (sym (append-nil f.bytes)), ok),
        ))
      (λ e.
        if-cases P (ltb 131072 (length f.bytes + length extra)) _ _
          (λ k. inr (ltb→lt 131072 _ k, refl))
          (λ k.
            let small = ltb→le 131072 (length f.bytes + length extra) k in
            if-cases P (ltb f.cap (length f.bytes + length extra)) _ _
              (λ l.
                let (c, grown, enough) =
                  grow_lem 18 (length f.bytes + length extra) (first_cap f.cap)
                    (omega (arith, first_cap_lem f.cap)) in
                let (up, down) = limited_lem (length f.bytes + length extra) c enough small in
                rw grown
                  (inl (small, (_, refl, refl, record { room = omega arith; limit = down }))))
              (λ l. inl (
                small,
                (
                  _,
                  refl,
                  refl,
                  record {
                    room = omega (arith, ltb→le f.cap (length f.bytes + length extra) l);
                    limit = ok.limit;
                  },
                ),
              ))))
