-- ===== src/ApiSpec/Transform.antt =====
-- galaxy_ng/app/utils/apispec/id_fix.py: the new id of one operation.
use galaxy_ng.Prelude.{
  is_nil, ends_with, replace, Text, codes, lower, text_eq, Bool, not, ◌&&◌, List, [], ◌∷◌, ◌++◌,
  Option, none, some, if◌then◌else◌,
}
use galaxy_ng.Hostname.Split.{strip_of}
use galaxy_ng.ApiSpec.Texts.{join, collapse, is_underscore, last}
use galaxy_ng.ApiSpec.Paths.{
  extract_version, has_ui_segment, has_pulp_segment, extract_feature_area, get_http_action_suffix,
  get_transfer_action_suffix,
}

abbrev pub deduplicate_onto : Text → List Text → List Text
deduplicate_onto previous [] = []
deduplicate_onto previous (w ∷ ws) =
    let rest = deduplicate_onto w ws in if text_eq w previous then rest else w ∷ rest

abbrev pub deduplicate_words : List Text → List Text
deduplicate_words [] = []
deduplicate_words (w ∷ ws) = w ∷ deduplicate_onto w ws

-- The words for pulp, for the version and for the user interface.
unfoldable pub marker_parts : Text → List Text
marker_parts path =
    (if has_pulp_segment path then codes "pulp" ∷ [] else [])
    ++ (elim (extract_version path) [ none ↦ [] | some v ↦ v ∷ [] ])
    ++ (if has_ui_segment path then codes "ui" ∷ [] else [])

-- The action, unless the last of the words says it.
abbrev pub needed_action : Text → List Text → Text
needed_action action words = elim (last words) [
  | none ↦ action
  | some w ↦ if not (is_nil action) && text_eq (lower w) (lower action) then [] else action
]

-- `if action and not new_id.endswith(f"_{action}")`
abbrev pub add_action : Text → Text → Text
add_action action new_id =
    if not (is_nil action) && not (ends_with (b'_' ∷ action) new_id)
    then (if is_nil new_id then action else new_id ++ b'_' ∷ action)
    else new_id

abbrev pub add_transfer : Option Text → Text → Text
add_transfer none new_id = new_id
add_transfer (some t) new_id = if ends_with (b'_' ∷ t) new_id then new_id else new_id ++ b'_' ∷ t

abbrev pub clean : Text → Text
clean s = strip_of is_underscore (collapse s)

abbrev pub without_noise : List Text → Text → Text
without_noise [] s = s
without_noise (n ∷ ns) s =
    without_noise ns
      (replace (n ++ codes "_") [] 0 (replace (codes "_" ++ n ++ codes "_") (codes "_") 0 s))

-- What is left of the current id. The noise words come in the order of a Python set.
unfoldable pub fallback : List Text → Text → Text
fallback noise_order current_id = clean (without_noise noise_order (lower current_id))

-- The new id before the prefix of deprecated operations.
unfoldable pub built_id : Text → Text → Text → Text
unfolding marker_parts
built_id path method current_id =
    let words = marker_parts path ++ extract_feature_area path in
    let action = needed_action (get_http_action_suffix method path) words in
    clean (
      add_transfer (get_transfer_action_suffix path current_id)
        (add_action action (join (deduplicate_words words))))

abbrev pub deprecated_prefix : Bool → Text → Text
deprecated_prefix is_deprecated s = if is_deprecated then codes "deprecated_" ++ s else s

unfoldable pub transform_operation_id : List Text → Text → Text → Text → Bool → Text
unfolding built_id
transform_operation_id noise_order path method current_id is_deprecated =
    let new_id = deprecated_prefix is_deprecated (built_id path method current_id) in
    if is_nil new_id then fallback noise_order current_id else new_id
