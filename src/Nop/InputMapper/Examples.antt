-- ===== src/Nop/InputMapper/Examples.antt =====
-- A path of nop/input_mapper.py.
use nps_sdk_python.Prelude.Dict
use nps_sdk_python.Prelude.{◌≡◌, ◌≢◌, refl, string_eq, String, ok, [], ◌∷◌}
use nps_sdk_python.Prelude.Dict.{Dict}
use nps_sdk_python.Nop.Json.{Json, View, is_string, is_object}
use nps_sdk_python.Nop.InputMapper.{look_up, resolve, resolve_parts, resolve-dotted}

kinds_differ :
    (v : String) (d : Dict String String) → ◌≢◌ {A = View String String} (is_string v) (is_object d)
kinds_differ v d h = cc

abbrev texts : Json String String
texts = record {
  view = is_string;
  object = λ d. "{}";
  array = λ vs. "[]";
  null = "null";
  keys_once = λ v d h. absurd (kinds_differ v d h);
}

abbrev context : Dict String String
context = ("a", "first") ∷ ("b", "second") ∷ []

resolve-dotted_example : resolve texts "$.b" context ≡ ok (look_up texts ("b" ∷ []) context)
resolve-dotted_example = resolve-dotted texts "b" [] context ((refl, (refl, tt)), tt)

resolve_test : resolve texts "$.b" context ≡ ok "second"
unfolding resolve resolve_parts Dict.get
resolve_test = refl
