-- ===== src/Discovery/Reflection/Sorting.antt =====
-- cpool/grpc/auto_register.go: sorting keeps the strings.
use go_rpc_gateway.Prelude.{◌≡◌, refl, ap, ◌∙◌, Bool, ◌||◌, List, [], ◌∷◌, any, String, arith}
use go_rpc_gateway.Discovery.Reflection.{insert_string, sort_strings}

module _ (p : String → Bool) where
  any-insert_string :
      (s : String) (ts : List String) → any p (insert_string s ts) ≡ (p s || any p ts)
  unfolding insert_string
  any-insert_string s [] = refl
  any-insert_string s (t ∷ ts) = ground (arith, any-insert_string s ts)

  pub any-sort_strings : (ss : List String) → any p (sort_strings ss) ≡ any p ss
  unfolding sort_strings
  any-sort_strings [] = refl
  any-sort_strings (s ∷ ss) =
      any-insert_string s (sort_strings ss) ∙ ap (λ b. p s || b) (any-sort_strings ss)
