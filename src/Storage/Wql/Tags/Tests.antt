-- ===== src/Storage/Wql/Tags/Tests.antt =====
-- Instances of the theorems on wql/tags.rs.
use iviadc_aries_askar.Base.{◌≡◌, refl, ok}
use iviadc_aries_askar.Storage.Wql.Query.{eq}
use iviadc_aries_askar.Storage.Wql.Json.{to_value}
use iviadc_aries_askar.Storage.Wql.Tags.{TagQuery, plaintext, to_string, tag_query}
use iviadc_aries_askar.Storage.Wql.Tags.Name.{to_value-tag_query}

to_value-tag_query_example :
    (r : TagQuery) × (tag_query (eq "~b" "2") ≡ ok r)
    × (to_value to_string r ≡ to_value (λ k. k) (eq "~b" "2"))
to_value-tag_query_example = to_value-tag_query (eq "~b" "2")

reads_plaintext : tag_query (eq "~b" "2") ≡ ok (eq (plaintext "b") "2")
unfolding tag_query
reads_plaintext = refl
