-- ===== src/Tests/Building.antt =====
-- The builder, and what is built with it, at concrete inputs.
use opssl.Base.{ℕ, ◌≡◌, refl, List, [], ◌∷◌, length, true, some, arith}
use opssl.Bytes.{store, put_be16, put_be24}
use opssl.Cbs.{Cbs, init, view}
use opssl.Cbs.Reads.{two, get_length_prefixed}
use opssl.Cbb.{
  Store, blank, cbb_init, add_bytes, add_length_prefixed, grow, grow_self, doubled, root_of,
  move_chain, flush, flush_self, finish,
}
use opssl.Cbb.Document.{
  Document, nothing, bytes_then, field_then, encode, Fits, depth, build, finish-build,
}
use opssl.Cbb.Parsed.{get_length_prefixed-finish}

abbrev no_builders : Store
no_builders = record { builder = λ q. blank; memory = λ k. []; next = 1 }

-- A field of two bytes' length, with a field of one byte's in it, then a byte.
abbrev inner : Document
inner = bytes_then (1 ∷ 2 ∷ []) (field_then 1 (bytes_then (3 ∷ []) nothing) nothing)

abbrev rest : Document
rest = bytes_then (9 ∷ []) nothing

abbrev doc : Document
doc = field_then 2 inner rest

abbrev built : List ℕ
built = 0 ∷ 4 ∷ 1 ∷ 2 ∷ 1 ∷ 3 ∷ 9 ∷ []

-- The first block has one byte, and the children move with it.
build_runs : (finish 3 (build 3 doc (cbb_init no_builders 0 1) 0 1).0 0).1 ≡ some built
unfolding finish build cbb_init add_bytes add_length_prefixed grow grow_self doubled root_of
    move_chain flush flush_self store put_be16 put_be24
build_runs = refl

doc-Fits : Fits doc
unfolding Fits encode put_be16 put_be24
doc-Fits =
    (omega arith, omega arith, omega arith, (omega arith, omega arith, omega arith, tt, tt), tt)

finish-build_example :
    ((build 3 doc (cbb_init no_builders 0 1) 0 1).1 ≡ true)
    × ((finish 3 (build 3 doc (cbb_init no_builders 0 1) 0 1).0 0).1 ≡ some (encode doc))
unfolding depth encode put_be16 put_be24
finish-build_example =
    finish-build 3 no_builders 0 1 1 doc doc-Fits (omega arith) (omega arith) (omega arith)

get_length_prefixed-finish_example :
    (c : Cbs) × (out : Cbs) × (get_length_prefixed two (init built (length built)) ≡ (c, some out))
    × (view out ≡ encode inner)
    × (view c ≡ encode rest)
unfolding depth encode put_be16 put_be24
get_length_prefixed-finish_example =
    get_length_prefixed-finish two 3 no_builders 0 1 1 inner rest built doc-Fits
      (
        omega arith,
        (
          omega arith,
          (omega arith, (omega arith, (omega arith, (omega arith, (omega arith, tt))))),
        ),
      )
      (omega arith) (omega arith) (omega arith) build_runs
