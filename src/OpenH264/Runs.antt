-- ===== src/OpenH264/Runs.antt =====
-- Two contexts, at the addresses 4096 and 8200.
use wlvncc.Base.{ℕ, ◌≤◌, ◌≡◌, refl, [], ◌∷◌, Option, none, some, replicate, done, fault, ◌>>=◌, ◌⊎◌}
use wlvncc.WlList.{find_first, remove_first}
use wlvncc.OpenH264.{
  Rect, OpenH264, max_contexts, context_at, find_context_index, get_context, reset_context,
  reset_all_contexts,
}
use wlvncc.OpenH264.Finding.{Backed, Found, NoneFor, Made, get_context_lem}

abbrev upper : Rect
upper = record { x = 0; y = 0; w = 64; h = 32 }

abbrev lower : Rect
lower = record { x = 0; y = 32; w = 64; h = 32 }

abbrev two : OpenH264
two = record {
  contexts = 4096 ∷ 8200 ∷ replicate 62 0;
  n_contexts = 2;
  heap = record { address = 4096; rect = upper } ∷ record { address = 8200; rect = lower } ∷ [];
}

two-Backed : Backed two.heap two.contexts 2
unfolding Backed context_at find_first
two-Backed = ((_, refl), ((_, refl), tt))

get_context_lem_example :
    (s' : OpenH264) × (o : Option ℕ) × (get_context
        (some 9000)
        (record { x = 1; y = 1; w = 1; h = 1 })
        two
      ≡ done (s', o))
    × Backed s'.heap s'.contexts s'.n_contexts
    × (Found (record { x = 1; y = 1; w = 1; h = 1 }) two s' o
        ⊎ (NoneFor (record { x = 1; y = 1; w = 1; h = 1 }) two.heap two.contexts 2
            × (Made 9000 (record { x = 1; y = 1; w = 1; h = 1 }) two s' o
                ⊎ ((max_contexts ≤ 2) × (o ≡ none) × (s' ≡ two)))))
get_context_lem_example =
    get_context_lem 9000 (record { x = 1; y = 1; w = 1; h = 1 }) two two-Backed refl

-- Resetting the first context moves one byte of the second pointer: the search reads a context that
-- is not there.
reset_context-first : (reset_context upper two >>= λ s. find_context_index s lower) ≡ fault
unfolding reset_context context_at find_first remove_first
reset_context-first = refl

-- Resetting all of them leaves two null pointers that the search reads.
reset_all_contexts-two : (reset_all_contexts two >>= λ s. find_context_index s lower) ≡ fault
unfolding reset_all_contexts find_context_index context_at find_first remove_first
reset_all_contexts-two = refl
