-- ===== src/Nesting/Tests.antt =====
-- Runs of `json_nesting_depth`, and the property at a value whose strings hold brackets and a quote.
use cryptovalid_opencore.Prelude.{◌≡◌, refl, [], ◌∷◌}
use cryptovalid_opencore.Json.{
  pos, Json, num, str, arr, obj, end, element, empty, member, sort_keys, dumps,
}
use cryptovalid_opencore.Nesting.{up, down, raised, scan_step, scan, json_nesting_depth}
use cryptovalid_opencore.Nesting.Depth.{nesting}
use cryptovalid_opencore.Nesting.Values.{json_nesting_depth-dumps}

-- `[[{"[": "\"["}], 7]`
abbrev nested : Json
nested = arr (
    element (arr (element (obj (member (91 ∷ []) (str (34 ∷ 91 ∷ [])) empty)) end))
      (element (num (pos 7)) end))

json_nesting_depth-dumps_example : json_nesting_depth (dumps nested) ≡ nesting (sort_keys nested)
json_nesting_depth-dumps_example = json_nesting_depth-dumps nested

-- `][[` opens once: the depth is -1 before
closes_first : json_nesting_depth (93 ∷ 91 ∷ 91 ∷ []) ≡ 1
unfolding json_nesting_depth scan scan_step up down raised
closes_first = refl
