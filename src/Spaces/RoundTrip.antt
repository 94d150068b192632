-- ===== src/Spaces/RoundTrip.antt =====
-- spaces/__init__.py: a space is read back from its dict.
use epistemos.Common.{◌≡◌, refl, true, false, ◌==◌}
use epistemos.Result.{ok}
use epistemos.Json.{num}
use epistemos.Json.Dict.{has, find}
use epistemos.Host.{Host}
use epistemos.Spaces.{
  Visibility, level, of_level, KnowledgeSpace, new_space, space_to_dict, space_from_dict,
  resolve_visibility, with_namespace,
}

level_back : (h : Host) (v : Visibility) → resolve_visibility h (num (level v)) ≡ ok v
unfolding resolve_visibility of_level level
level_back h Visibility.private = refl
level_back h Visibility.team = refl
level_back h Visibility.organization = refl
level_back h Visibility.community = refl
level_back h Visibility.public = refl

-- A space with an id, a name and a namespace in its metadata is read back from its dict unchanged.
pub space_round_trip :
    (h : Host) (sp : KnowledgeSpace)
    → (sp.id == "") ≡ false
    → (sp.name == "") ≡ false
    → has "namespace" sp.metadata ≡ true
    → space_from_dict h (space_to_dict sp) ≡ ok sp
unfolding space_from_dict space_to_dict new_space with_namespace find
space_round_trip h sp i n m = rw (level_back h sp.visibility, i, n, m) refl
