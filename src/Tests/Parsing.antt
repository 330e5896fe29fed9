-- ===== src/Tests/Parsing.antt =====
-- The parser of byte strings, the ASN.1 reader and the error ring, at concrete inputs.
use opssl.Base.{ℕ, ◌≡◌, refl, List, [], ◌∷◌, ◌++◌, true, none, some, length, arith}
use opssl.Cbs.{
  Cbs, view, advance, get_u8, get_u16, get_u24, get_u32, get_bytes, get_u8_length_prefixed,
  get_u16_length_prefixed,
}
use opssl.Cbs.Bounds.{IsValid}
use opssl.Cbs.Reads.{
  one, put_length, get_length_prefixed, get_length_prefixed_sound, get_length_prefixed_complete,
}
use opssl.Cbs.Views.{Call, u8, u24, bytes}
use opssl.Asn1.{
  Input, get_tag, after_initial, get_length, get_element, check_boolean, get_boolean, check_unused,
  get_bit_string,
}
use opssl.Asn1.Length.{LengthForm, short}
use opssl.Asn1.Element.{get_element_sound, get_element_complete}
use opssl.Err.{fresh, tls}
use opssl.Err.Fifo.{push_call, set_error_call, get_call, contents, run, run_queue, run_refines}
use opssl.Err.Fifo as Fifo

-- A u8-prefixed field of two bytes, and a byte after it.
abbrev field : Cbs
field = record { bytes = 2 ∷ 7 ∷ 8 ∷ 9 ∷ []; len = 4 }

abbrev field_body : Cbs
field_body = record { bytes = 7 ∷ 8 ∷ 9 ∷ []; len = 2 }

abbrev field_rest : Cbs
field_rest = record { bytes = 9 ∷ []; len = 1 }

field-IsValid : IsValid field
field-IsValid = (omega arith, (omega arith, (omega arith, (omega arith, (omega arith, tt)))))

get_field : get_length_prefixed one field ≡ (field_rest, some field_body)
unfolding get_u8_length_prefixed get_u8 get_bytes
get_field = refl

get_length_prefixed_sound_example :
    (view field ≡ put_length one (length (view field_body)) ++ (view field_body ++ view field_rest))
    × IsValid field_body
    × IsValid field_rest
get_length_prefixed_sound_example = get_length_prefixed_sound one field field-IsValid get_field

get_length_prefixed_complete_example :
    (c' : Cbs) × (out : Cbs) × (get_length_prefixed one field ≡ (c', some out))
    × (view out ≡ 7 ∷ 8 ∷ [])
    × (view c' ≡ 9 ∷ [])
get_length_prefixed_complete_example =
    get_length_prefixed_complete one field (7 ∷ 8 ∷ []) (9 ∷ []) field-IsValid (omega arith) refl

-- The same four bytes, with others after them.
abbrev field_inside : Cbs
field_inside = record { bytes = 2 ∷ 7 ∷ 8 ∷ 9 ∷ 255 ∷ []; len = 4 }

field_inside-IsValid : IsValid field_inside
field_inside-IsValid =
    (omega arith, (omega arith, (omega arith, (omega arith, (omega arith, (omega arith, tt))))))

abbrev some_calls : List Call
some_calls = u24 ∷ u24 ∷ u8 ∷ bytes 1 ∷ []

-- BOOLEAN TRUE, and a byte after it.
abbrev der_true : Input
der_true = record { cbs = record { bytes = 1 ∷ 1 ∷ 255 ∷ 9 ∷ []; len = 4 }; errors = fresh }

abbrev der_true_at : ℕ → Input
der_true_at n = record { cbs = advance n der_true.cbs; errors = fresh }

der_true-IsValid : IsValid der_true.cbs
der_true-IsValid = (omega arith, (omega arith, (omega arith, (omega arith, (omega arith, tt)))))

der_length-IsValid : IsValid (der_true_at 1).cbs
der_length-IsValid = (omega arith, (omega arith, (omega arith, (omega arith, tt))))

der_true_length : get_length (der_true_at 1) ≡ (der_true_at 2, some 1)
unfolding get_length after_initial get_u8
der_true_length = refl

abbrev true_content : Cbs
true_content = record { bytes = 255 ∷ 9 ∷ []; len = 1 }

der_true_element : get_element 1 der_true ≡ (der_true_at 3, some true_content)
unfolding get_element get_tag get_length after_initial get_u8 get_bytes
der_true_element = refl

der_true_value : get_boolean der_true ≡ (der_true_at 3, some true)
unfolding get_boolean check_boolean get_element get_tag get_length after_initial get_u8 get_bytes
der_true_value = refl

get_element_sound_example :
    (l : List ℕ) × LengthForm 1 l
    × (view der_true.cbs ≡ 1 ∷ (l ++ (view true_content ++ view (der_true_at 3).cbs)))
    × IsValid true_content
    × IsValid (der_true_at 3).cbs
    × (fresh ≡ fresh)
get_element_sound_example = get_element_sound 1 der_true der_true-IsValid der_true_element

get_element_complete_example :
    (c : Cbs) × (content : Cbs) × (get_element 1 der_true
      ≡ (record der_true { cbs = c }, some content))
    × (view content ≡ 255 ∷ [])
    × (view c ≡ 9 ∷ [])
get_element_complete_example =
    get_element_complete 1 der_true (1 ∷ []) (255 ∷ []) (9 ∷ []) der_true-IsValid (omega arith)
      (short (omega arith) refl) refl

-- A bit string of one octet with four unused bits.
abbrev der_bits : Input
der_bits = record { cbs = record { bytes = 3 ∷ 2 ∷ 4 ∷ 240 ∷ []; len = 4 }; errors = fresh }

abbrev der_bits_left : Input
der_bits_left = record { cbs = record { bytes = []; len = 0 }; errors = fresh }

abbrev bits_content : Cbs
bits_content = record { bytes = 240 ∷ []; len = 1 }

der_bits_value : get_bit_string der_bits ≡ (der_bits_left, some (bits_content, 4))
unfolding get_bit_string check_unused opssl.Cbs.is_empty get_element get_tag get_length
    after_initial get_u8 get_bytes
der_bits_value = refl

abbrev long_form : Input
long_form = record { cbs = record { bytes = 0x81 ∷ 1 ∷ 255 ∷ 9 ∷ []; len = 4 }; errors = fresh }

fresh-IsValid : Fifo.IsValid fresh
fresh-IsValid = record { slots = refl; head_in = omega arith; count_in = omega arith }

abbrev some_errors : List Fifo.Call
some_errors =
    push_call true tls 5 [] 1
    ∷ set_error_call true [] 0 40 none
    ∷ get_call
    ∷ get_call
    ∷ get_call
    ∷ []

run_refines_example : run some_errors fresh ≡ run_queue some_errors (contents fresh)
run_refines_example = run_refines some_errors fresh fresh-IsValid
