-- ===== src/Nop/Aggregator/Examples.antt =====
-- Results of nop/aggregator.py: a JSON value that is a number or an object.
use nps_sdk_python.Prelude.{
  ℕ, ◌≡◌, refl, String, some, List, [], ◌∷◌, Nodup, string_eq, arith, length,
}
use nps_sdk_python.Prelude.Dict
use nps_sdk_python.Prelude.Dict.{Dict, keys, Nodup-put}
use nps_sdk_python.Nop.Json.{Json, View, is_number, is_object}
use nps_sdk_python.Nop.Aggregator.{merge_from, update, merge, latest}

mutual
  data Value : Type 0 where
    number : ℕ → Value
    fields : Fields → Value

  data Fields : Type 0 where
    stop : Fields
    field_of : String → Value → Fields → Fields

to_dict : Fields → Dict String Value
to_dict stop = []
to_dict (field_of k v rest) = Dict.put (to_dict rest) k v

to_dict-Nodup : (fs : Fields) → Nodup (keys (to_dict fs))
unfolding to_dict keys
to_dict-Nodup stop = tt
to_dict-Nodup (field_of k v rest) = Nodup-put (to_dict rest) k v (to_dict-Nodup rest)

of_dict : Dict String Value → Fields
of_dict [] = stop
of_dict ((k, v) ∷ d) = field_of k v (of_dict d)

view_of : Value → View Value Value
view_of (number n) = is_number (number n)
view_of (fields fs) = is_object (to_dict fs)

once : (v : Value) (d : Dict String Value) → view_of v ≡ is_object d → Nodup (keys d)
unfolding view_of
once (number n) d h = cc
once (fields fs) d h = ground (arith, h, to_dict-Nodup fs)

abbrev json : Json Value Value
json = record {
  view = view_of;
  object = λ d. fields (of_dict d);
  array = λ vs. number (length vs);
  null = number 0;
  keys_once = once;
}

abbrev result_key : ℕ → String
result_key i = "_result"

abbrev two_objects : List Value
two_objects =
    fields (field_of "x" (number 1) stop) ∷ number 7 ∷ fields (field_of "x" (number 2) stop) ∷ []

latest_test : latest json result_key "x" two_objects ≡ some (number 2)
unfolding latest view_of to_dict Dict.get Dict.put
latest_test = refl

merge_test : Dict.get (merge json result_key two_objects) "x" ≡ some (number 2)
unfolding merge_from update view_of to_dict Dict.get Dict.put
merge_test = refl
