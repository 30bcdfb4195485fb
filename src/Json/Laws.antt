-- ===== src/Json/Laws.antt =====
-- Laws of dictionaries, and of `==` on texts.
use vheatm.Prelude.{String, ◌≡◌, refl, none, some, arith, ◌==◌, eq_iff, if◌then◌else◌}
use vheatm.Json.{Json, Fields, end, field, get, put, remove}

pub get-put :
    (k j : String) (v : Json) (d : Fields)
    → get j (put k v d) ≡ (if k == j then some v else get j d)
unfolding put
get-put k j v end = refl
get-put k j v (field i w d) = ground (arith, eq_iff k j, eq_iff i k, eq_iff i j, get-put k j v d)

pub get-remove :
    (k j : String) (d : Fields) → get j (remove k d) ≡ (if k == j then none else get j d)
unfolding remove
get-remove k j end = ground arith
get-remove k j (field i w d) = ground (arith, eq_iff k j, eq_iff i k, eq_iff i j, get-remove k j d)
