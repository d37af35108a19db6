-- ===== src/Access/Conditions/Containers.antt =====
-- galaxy_ng/app/access_control/access_policy.py: the conditions on container objects.
use Prim.Native.Char.{code}
use galaxy_ng.Prelude.{
  ℕ, ◌==◌, String, Bool, true, false, List, [], ◌∷◌, any, Option, none, some, if◌then◌else◌,
}
use galaxy_ng.Access.Model.{
  index_error, Result, returned, ◌>>=◌, found_or, container_namespace, other_object, Perms,
  has_model_or_object_permissions,
}

-- Text concatenation, and the part of a text behind its first dot, `split(".", 1)[1]`.
abbrev pub joined : String → String → String
joined String.[] t = t
joined (String.◌∷◌ c s) t = String.◌∷◌ c (joined s t)

abbrev pub after_dot : String → Option String
after_dot String.[] = none
after_dot (String.◌∷◌ c s) = if code c == b'.' then some s else after_dot s

-- A container distribution with its own key and that of its namespace.
pub record ContainerDistro : Type 0 where
  pub pk : ℕ
  pub namespace_pk : ℕ

-- What `view.get_object()` gives. A repository or a version of one stands with its distributions.
pub data ContainerObject : Type 0 where
  distribution : ContainerDistro → ContainerObject
  push_repository push_repository_version : ℕ → List ContainerDistro → ContainerObject
  another : ℕ → ContainerObject

abbrev pub object_pk : ContainerObject → ℕ
object_pk (distribution d) = d.pk
object_pk (push_repository pk ds) = pk
object_pk (push_repository_version pk ds) = pk
object_pk (another pk) = pk

abbrev on_namespace : Perms → String → ContainerDistro → Bool
on_namespace u permission d = u.object permission (container_namespace d.namespace_pk)

abbrev on_some_namespace : Perms → String → ContainerObject → Bool
on_some_namespace u permission (distribution d) = on_namespace u permission d
on_some_namespace u permission (push_repository pk ds) = any (on_namespace u permission) ds
on_some_namespace u permission (push_repository_version pk ds) = any (on_namespace u permission) ds
on_some_namespace u permission (another pk) = false

unfoldable pub has_namespace_obj_perms : Perms → ContainerObject → String → Bool
has_namespace_obj_perms u obj permission =
    if u.model permission then true else on_some_namespace u permission obj

abbrev pub namespace_permission : String → String
namespace_permission suffix = joined "container.namespace_" suffix

-- A permission without a dot is an IndexError.
unfoldable pub has_namespace_or_obj_perms : Perms → ContainerObject → String → Result Bool
has_namespace_or_obj_perms u obj permission =
    found_or index_error (after_dot permission) >>= λ suffix.
    if has_namespace_obj_perms u obj (namespace_permission suffix)
    then returned true
    else returned (has_model_or_object_permissions u permission (other_object (object_pk obj)))

-- The loop over the distributions of the remote's repositories, flattened.
unfoldable pub has_distro_permission : Perms → List ContainerDistro → String → Result Bool
has_distro_permission u [] permission = returned false
has_distro_permission u (d ∷ ds) permission =
    let rest = has_distro_permission u ds permission in
    has_namespace_or_obj_perms u (distribution d) permission >>= λ found.
    if found then returned true else rest

unfoldable pub has_container_namespace_perms : Perms → ContainerDistro → String → Bool
has_container_namespace_perms u d permission =
    has_model_or_object_permissions u permission (container_namespace d.namespace_pk)
