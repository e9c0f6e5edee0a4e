-- ===== src/Tests/NormalizerTests.antt =====
-- Runs of the path normalizer.
use go_rpc_gateway.Prelude.{◌≡◌, refl, List, [], ◌∷◌, ◌≢◌, ◌≤◌, String, eq_iff, arith}
use go_rpc_gateway.Prelude.Dict.{lookup, insert}
use go_rpc_gateway.PathNormalizer.{build_prefix_key, new_normalizer, normalize, split, strip_query}
use go_rpc_gateway.PathNormalizer.Bounds.{normalize_all, IsBounded, normalize_all-IsBounded}

-- The walk of the comment on `smartPathNormalizer`, in the order given there.
abbrev walk : List String
walk = "/v1/buckets/my-bucket/objects" ∷ "/v1/buckets/your-bucket/objects" ∷ []

walk_learns :
    (normalize "/v1/buckets/my-bucket/objects/file.txt" (normalize_all walk (new_normalizer []))).1
    ≡ "/v1/buckets/:param/objects/file.txt"
unfolding normalize normalize_all new_normalizer lookup insert split build_prefix_key
walk_learns = refl

plain : strip_query "/health" ≡ "/health"
unfolding strip_query
plain = refl

normalize_all-IsBounded_example : IsBounded (normalize_all walk (new_normalizer ("/health" ∷ [])))
normalize_all-IsBounded_example = normalize_all-IsBounded ("/health" ∷ []) walk

abbrev one_part : String
one_part = "a"

abbrev other_part : String
other_part = "b"

one_present : one_part ≢ ""
one_present = ground (arith, eq_iff one_part "")

other_present : other_part ≢ ""
other_present = ground (arith, eq_iff other_part "")

parts_differ : one_part ≢ other_part
parts_differ = ground (arith, eq_iff one_part other_part)

two_values : 2 ≤ (new_normalizer []).max_values
unfolding new_normalizer
two_values = omega arith
