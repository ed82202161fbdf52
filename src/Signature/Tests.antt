-- ===== src/Signature/Tests.antt =====
-- Two objects that come to stand at one address, the second after the first is gone.
use ladybug_python.Base.{ℕ, ◌≡◌, refl, false, [], ◌∷◌, arith, nat_eq}
use ladybug_python.Base.Int.{pos}
use ladybug_python.Outcome.{ok, err}
use ladybug_python.Text.{codes, text_eq}
use ladybug_python.Signature.Width.{int8, pybind_int_signature}
use ladybug_python.Signature.Shape.{sig_beq}
use ladybug_python.Signature.Shape
use ladybug_python.Signature.Merge.{
  merge, unless_equal, sorted, insert_sorted, same_keys, new_keys, add_fields, fields_of,
  merge_dicts,
}
use ladybug_python.Signature.Value.{Value, nil, cons, int, end, entry, value_signature}
use ladybug_python.Signature.Value.{Entries}
use ladybug_python.Signature.Lists.{pair_error, third_dict_raises}
use ladybug_python.Dict.{lookup, insert, without, contains}
use ladybug_python.Signature.Pointer.{no_pointers, assign, generation}
use ladybug_python.Signature.Pointer.History.{
  World, Reach, start, born, signed, gone, birth, death, sign, issued_in,
  generation_tells_objects_apart,
}

abbrev place : ℕ → ℕ
place i = 64

abbrev nothing : World
nothing = record { tracker = no_pointers; made = []; issued = [] }

abbrev recycled : World
recycled = sign place 2 (birth place 2 (death place 1 (sign place 1 (birth place 1 nothing))))

recycled-Reach : Reach place recycled
unfolding birth death sign generation assign lookup insert without
recycled-Reach =
    signed 2
      (born 2 (gone 1 (signed 1 (born 1 start refl (λ j e. ground arith)) refl)) refl
        (λ j e. ground arith))
      refl

-- The object at the address has a generation of its own.
generations : recycled.issued ≡ (2, 2) ∷ (1, 1) ∷ []
unfolding birth death sign generation assign lookup insert without
generations = refl

generation_tells_objects_apart_example : issued_in 1 2 recycled.issued ≡ false
unfolding birth death sign generation assign lookup insert without
generation_tells_objects_apart_example =
    generation_tells_objects_apart place {w = recycled} 2 1 2 recycled-Reach (λ e. ground arith)
      refl

-- -129 needs 16 bits.

-- `[{"id_": 1}, {"age": 2}]`: the merged signature holds the bare keys.
two_dicts :
    (value_signature
      (Value.list (
        cons
          (Value.dict (entry (codes "id_") (int (pos 1)) end))
          (cons (Value.dict (entry (codes "age") (int (pos 2)) end)) nil)))
      no_pointers).0
    ≡ ok (Shape.list (Shape.names (codes "age" ∷ codes "id_" ∷ [])))
unfolding value_signature merge unless_equal sig_beq fields_of merge_dicts same_keys new_keys
    contains lookup add_fields insert pybind_int_signature sorted insert_sorted
two_dicts = refl

third_dict_raises_example :
    value_signature
      (Value.list (
        cons (Value.dict (entry (codes "name") (int (pos 1)) end)) (
          cons
            (Value.dict (entry (codes "age") (int (pos 2)) end))
            (cons (Value.dict (entry (codes "name") (int (pos 3)) end)) nil))))
      no_pointers
    ≡ (err pair_error, no_pointers)
unfolding value_signature pybind_int_signature
third_dict_raises_example =
    third_dict_raises (codes "name") (codes "age") (pos 1) (pos 2)
      (entry (codes "name") (int (pos 3)) end)
      (Shape.field (codes "name") (Shape.int int8) Shape.end) no_pointers no_pointers
      (λ e. ground arith) (λ e. ground arith) refl refl

abbrev two_parameters : Entries
two_parameters = entry (codes "name") Value.str (entry (codes "age") (int (pos 30)) end)
