-- ===== src/Nop/InputMapper.antt =====
-- nps_sdk/nop/input_mapper.py: `resolve` looks a path up in the results of earlier nodes, and
-- `build_params` the paths of a mapping.
mod Examples
use Prim.Native.Char.{Char, code}
use nps_sdk_python.Prelude.{
  ℕ, suc, ◌+◌, ◌≡◌, ◌≢◌, ◌∙◌, refl, sym, ap, String, Bool, true, false, not, ◌&&◌, Option, none,
  some, List, [], ◌∷◌, map, arith, ltb, ◌==◌, length, select, mem, eqb, string_eq, Result, ok, err,
  ◌>>=◌, is_blank, All, if◌then◌else◌, Bool-cases, inl, inr,
}
use nps_sdk_python.Prelude.Dict
use nps_sdk_python.Prelude.Dict.{Dict}
use nps_sdk_python.Nop.Json.{
  Json, View, is_null, is_bool, is_number, is_string, is_array, is_object,
}

-- NopMappingError, with what its message names
pub data MappingError : Type 0 where
  empty_path no_prefix : MappingError
  too_deep : ℕ → MappingError

-- constants.py
abbrev pub max_input_mapping_depth : ℕ
max_input_mapping_depth = 8

-- path.split("."): the text before the first dot, and the pieces behind it
abbrev pub split_dots : String → String × List String
split_dots String.[] = (String.[], [])
split_dots (String.◌∷◌ c s) =
    let rest = split_dots s in
    if code c == b'.' then (String.[], rest.0 ∷ rest.1) else (String.◌∷◌ c rest.0, rest.1)

abbrev pub is_text : String → Bool
is_text String.[] = false
is_text (String.◌∷◌ c s) = true

-- [p for p in path.split(".") if p != ""]
abbrev pub parts : String → List String
parts path = select is_text ((split_dots path).0 ∷ (split_dots path).1)

abbrev pub has_prefix : String → Bool
has_prefix (String.◌∷◌ a (String.◌∷◌ b s)) = (code a == b'$') && (code b == b'.')
has_prefix _ = false

-- A text that is the key of a path: not empty, and without dots.
abbrev pub HasNoDot : String → Type 0
HasNoDot String.[] = Unit
HasNoDot (String.◌∷◌ c s) = ((code c == b'.') ≡ false) × HasNoDot s

abbrev pub IsKey : String → Type 0
IsKey key = (is_text key ≡ true) × HasNoDot key

-- `a` before `b`
abbrev pub glue : String → String → String
glue String.[] b = b
glue (String.◌∷◌ c a) b = String.◌∷◌ c (glue a b)

abbrev pub dotted_tail : List String → String
dotted_tail [] = ""
dotted_tail (key ∷ keys) = String.◌∷◌ "." (glue key (dotted_tail keys))

-- "$.node_id.field.sub"
abbrev pub dotted : List String → String
dotted keys = String.◌∷◌ "$" (dotted_tail keys)

split-glue :
    (key rest : String)
    → HasNoDot key
    → split_dots (glue key rest) ≡ (glue key (split_dots rest).0, (split_dots rest).1)
split-glue String.[] rest h = refl
split-glue (String.◌∷◌ c key) rest h = rw (h.0, split-glue key rest h.1) refl

glue-nil : (key : String) → glue key "" ≡ key
glue-nil String.[] = refl
glue-nil (String.◌∷◌ c key) = ap (String.◌∷◌ c) (glue-nil key)

split-dotted : (keys : List String) → All IsKey keys → split_dots (dotted_tail keys) ≡ ("", keys)
split-dotted [] h = refl
split-dotted (key ∷ keys) h =
    rw (split-glue key (dotted_tail keys) h.0.1, split-dotted keys h.1, glue-nil key) refl

select_keys : (keys : List String) → All IsKey keys → select is_text keys ≡ keys
select_keys [] h = refl
select_keys (key ∷ keys) h = rw (h.0.0, select_keys keys h.1) refl

deeper : (n : ℕ) → ltb 9 (suc (suc n)) ≡ ltb 8 (suc n)
deeper n = ground arith

parts-dotted : (keys : List String) → All IsKey keys → parts (dotted keys) ≡ "$" ∷ keys
parts-dotted keys h = rw (split-dotted keys h, select_keys keys h) refl

module _ {ℓ} {N V : Type ℓ} (json : Json N V) where
  -- the loop over the parts behind the node's id
  abbrev pub walk : List String → V → V
  walk [] current = current
  walk (key ∷ keys) current = elim (json.view current) [
    | is_object d ↦ elim (Dict.get d key) [ none ↦ json.null | some v ↦ walk keys v ]
    | _ ↦ json.null
  ]

  -- the lookup in the context, on the parts behind "$"
  abbrev pub look_up : List String → Dict String V → V
  look_up [] context = json.object context
  look_up (id ∷ keys) context = elim (Dict.get context id) [
    | none ↦ json.null
    | some v ↦ walk keys v
  ]

  abbrev pub behind_dollar : List String → List String
  behind_dollar [] = []
  behind_dollar (p ∷ ps) = ps

  -- resolve, on `parts`
  unfoldable pub resolve_parts : List String → Dict String V → Result MappingError V
  resolve_parts ps context =
      if ltb (max_input_mapping_depth + 1) (length ps)
      then err (too_deep (length (behind_dollar ps)))
      else ok (look_up (behind_dollar ps) context)

  -- resolve
  unfoldable pub resolve : String → Dict String V → Result MappingError V
  resolve path context =
      if is_blank path
      then err empty_path
      else if not (has_prefix path)
      then err no_prefix
      else resolve_parts (parts path) context

  -- [resolve(p, context) if isinstance(p, str) else p for p in spec]
  unfoldable pub resolve_each : List V → Dict String V → Result MappingError (List V)
  resolve_each [] context = ok []
  resolve_each (p ∷ ps) context = do
    v ← elim (json.view p) [ is_string path ↦ resolve path context | _ ↦ ok p ]
    vs ← resolve_each ps context
    ok (v ∷ vs)

  unfoldable pub build_param : V → Dict String V → Result MappingError V
  build_param spec context = elim (json.view spec) [
    | is_string path ↦ resolve path context
    | is_array ps ↦ resolve_each ps context >>= λ vs. ok (json.array vs)
    | _ ↦ ok spec
  ]

  -- build_params
  unfoldable pub build_params :
      Dict String V → Dict String V → Dict String V → Result MappingError (Dict String V)
  build_params [] context out = ok out
  build_params ((name, spec) ∷ mapping) context out = do
    v ← build_param spec context
    build_params mapping context (Dict.put out name v)

  -- A path that names a node and keys behind it, none of them empty or with a dot, resolves to what
  -- is found one key after the other; more than eight of them are an error.
  pub resolve-dotted :
      (id : String) (keys : List String) (context : Dict String V)
      → All IsKey (id ∷ keys)
      → resolve (dotted (id ∷ keys)) context ≡ (
          if ltb max_input_mapping_depth (length (id ∷ keys))
          then err (too_deep (length (id ∷ keys)))
          else ok (look_up (id ∷ keys) context))
  unfolding resolve resolve_parts
  resolve-dotted id keys context h =
      ap (λ ps. resolve_parts ps context) (parts-dotted (id ∷ keys) h)
      ∙ rw (deeper (length keys)) refl
