-- ===== src/Properties/Tests.antt =====
-- "FLOAT[3][]": lists of any length of lists of three numbers.
use ladybug_python.Base.{◌≡◌, refl, [], ◌∷◌}
use ladybug_python.Outcome.{ok}
use ladybug_python.Text.{codes}
use ladybug_python.Properties.{split, count, has, before, read_digits, read_shape, read_type}
use ladybug_python.Properties.Types.{printed_type_reads_back}

wide :
    read_type (codes "FLOAT[128]")
    ≡ ok (record { name = codes "FLOAT"; dimension = 1; shape = 128 ∷ [] })
unfolding read_type split count has before read_digits read_shape
wide = refl

printed_type_reads_back_example :
    read_type (codes "FLOAT[3][]")
    ≡ ok (record { name = codes "FLOAT"; dimension = 2; shape = 3 ∷ [] })
unfolding read_digits
printed_type_reads_back_example =
    printed_type_reads_back (codes "FLOAT") (codes "3" ∷ [] ∷ []) refl refl
