-- ===== src/Storage/Backend/Params/Tests.antt =====
-- Instances of the theorem on extended queries.
use iviadc_aries_askar.Base.{
  ◌+◌, ◌^◌, ◌<◌, ◌≡◌, refl, true, none, some, [], ◌∷◌, ◌++◌, map, arith, length, Bytes,
}
use iviadc_aries_askar.Base.Decimal.{codes, display, digits}
use iviadc_aries_askar.Storage.Backend.Placeholders.{placeholder}
use iviadc_aries_askar.Storage.Wql.Template.{Template, text, hole, bound, number}
use iviadc_aries_askar.Storage.Backend.Params.{
  pos, negsuc, int, blob, QueryParams, id, is_select, trim_start, to_uppercase, starts_with,
  order_query, int_or, extend_query,
}
use iviadc_aries_askar.Storage.Backend.Params.Extended.{IsCounted, extend_query-numbered}

abbrev query : Bytes
query = codes "SELECT * FROM items WHERE p = ?1"

abbrev one_param : QueryParams
one_param = record { args = int (pos 5) ∷ []; count = 1 }

abbrev filter : Template
filter = text (codes "name = ") ∷ hole (9 ∷ []) ∷ []

selects : is_select query ≡ true
unfolding is_select trim_start to_uppercase starts_with
selects = refl

fits : one_param.count + length (bound filter) + 3 < 2 ^ 63
unfolding bound
fits = omega arith

extend_query-numbered_example :
    (p : QueryParams) × (extend_query placeholder query one_param
        (some (number placeholder (one_param.count + 1) filter, bound filter))
        none
        (some (pos 7))
        (some id)
        true
      ≡ some (
        order_query
              (query ++ (codes " AND " ++ number placeholder (one_param.count + 1) filter))
              (some id)
              true
            ++ (codes " LIMIT "
                ++ (placeholder (one_param.count + length (bound filter) + 1)
                    ++ (codes ", " ++ placeholder (one_param.count + length (bound filter) + 2)))),
        p,
      ))
    × (p.args
        ≡ one_param.args
          ++ (map blob (bound filter)
              ++ (int_or (pos 0) none ∷ int_or (negsuc 0) (some (pos 7)) ∷ [])))
    × IsCounted p
extend_query-numbered_example =
    extend_query-numbered placeholder query one_param filter none (some (pos 7)) (some id) true
      selects refl refl fits

whole_text :
    order_query (query ++ (codes " AND " ++ number placeholder 2 filter)) (some id) true
    ≡ codes "SELECT * FROM items WHERE p = ?1 AND name = ?2 ORDER BY id DESC"
unfolding order_query number placeholder display digits
whole_text = refl
