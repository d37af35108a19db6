-- ===== src/Startup/Classes.antt =====
-- galaxy_ng/app/dynaconf_hooks.py: the order of the classes of authentication.
use galaxy_ng.Prelude.{
  ◌≡◌, refl, ◌∙◌, inl, inr, String, str_eq, str_eq_iff, str_eq_refl, Bool, true, false, not, ◌||◌,
  List, [], ◌∷◌, Option, none, some, Bool-cases, arith,
}
use galaxy_ng.Startup.Model.{Settings, Entry, names, Data, entry_at, set, entry_at-set, mem}
use galaxy_ng.Startup.Auth.{
  set_classes, set_unless_empty, classes_of, is_flag, configure_authentication_classes,
  keycloak_class, session_class, remove_first, session_first, with_keycloak,
}

abbrev pub head : List String → Option String
head [] = none
head (c ∷ l) = some c

mem-remove_first :
    (x y : String) (l : List String) → str_eq y x ≡ false → mem x (remove_first y l) ≡ mem x l
mem-remove_first x y [] h = refl
mem-remove_first x y (z ∷ l) h = ground (arith, str_eq_iff z y, mem-remove_first x y l h, h)

mem-session_first : (x : String) (l : List String) → mem x l ≡ true → mem x (session_first l) ≡ true
unfolding session_first
mem-session_first x [] h = h
mem-session_first x (c ∷ l) h = elim (Bool-cases (str_eq session_class x)) [
  | inl same ↦ ground (arith, same, h)
  | inr other ↦ ground (arith, h, other, mem-remove_first x session_class (c ∷ l) other)
]

head-session_first :
    (c : String) (l : List String) → head (session_first (c ∷ l)) ≡ some session_class
unfolding session_first
head-session_first c l = ground (arith, str_eq_iff c session_class)

mem-with_keycloak :
    (x : String) (b : Bool) (l : List String) → mem x l ≡ true → mem x (with_keycloak b l) ≡ true
mem-with_keycloak x true l h = ground (arith, h)
mem-with_keycloak x false l h = h

pub three_lists :
    (l : List String) (d : Data)
    → (entry_at "ANSIBLE_AUTHENTICATION_CLASSES" (set_classes l d) ≡ some (names l))
      × (entry_at "GALAXY_AUTHENTICATION_CLASSES" (set_classes l d) ≡ some (names l))
      × (entry_at "REST_FRAMEWORK__DEFAULT_AUTHENTICATION_CLASSES" (set_classes l d)
          ≡ some (names l))
three_lists l d = (
  entry_at-set ansible rest e in_galaxy
      ∙ entry_at-set ansible galaxy e in_ansible
      ∙ entry_at-set ansible ansible e d,
  entry_at-set galaxy rest e in_galaxy ∙ entry_at-set galaxy galaxy e in_ansible,
  entry_at-set rest rest e in_galaxy,
)
  where
    ansible : String
    ansible = "ANSIBLE_AUTHENTICATION_CLASSES"

    galaxy : String
    galaxy = "GALAXY_AUTHENTICATION_CLASSES"

    rest : String
    rest = "REST_FRAMEWORK__DEFAULT_AUTHENTICATION_CLASSES"

    e : Entry
    e = names l

    in_ansible : Data
    in_ansible = set ansible e d

    in_galaxy : Data
    in_galaxy = set galaxy e in_ansible

set_nonempty :
    (l : List String) (c : String) (d : Data)
    → head l ≡ some c
    → set_unless_empty l d ≡ set_classes l d
set_nonempty [] c d h = absurd cc
set_nonempty (b ∷ l) c d h = refl

head_of_mem :
    (x : String) (l : List String) → mem x l ≡ true → head (session_first l) ≡ some session_class
head_of_mem x [] h = absurd cc
head_of_mem x (c ∷ l) h = head-session_first c l

keycloak_added :
    (b : Bool) (l : List String) → (not b || mem keycloak_class (with_keycloak b l)) ≡ true
keycloak_added true l = ground (arith, str_eq_refl keycloak_class)
keycloak_added false l = refl

-- The list of classes under the three keys: sessions come first, a class of the list from before is
-- there, and that of keycloak if it is enabled.
pub record IsConfigured (enabled : Bool) (x : String) (d : Data) : Type 0 where
  pub out : List String
  pub ansible : entry_at "ANSIBLE_AUTHENTICATION_CLASSES" d ≡ some (names out)
  pub galaxy : entry_at "GALAXY_AUTHENTICATION_CLASSES" d ≡ some (names out)
  pub rest : entry_at "REST_FRAMEWORK__DEFAULT_AUTHENTICATION_CLASSES" d ≡ some (names out)
  pub sessions_first : head out ≡ some session_class
  pub kept : mem x out ≡ true
  pub with_keycloak_class : (not enabled || mem keycloak_class out) ≡ true

in_session_first :
    (b : Bool) (x : String) (l : List String)
    → (not b || mem x l) ≡ true
    → (not b || mem x (session_first l)) ≡ true
in_session_first true x l h = mem-session_first x l h
in_session_first false x l h = refl

-- If there are authentication classes, the three settings for them hold one list, in which the
-- class of sessions comes first, every class from before is left, and the class of keycloak is
-- there if keycloak is enabled.
pub configure_authentication_classes-IsConfigured :
    (s : Settings) (d : Data) (x : String)
    → mem x (classes_of s (entry_at "GALAXY_AUTHENTICATION_CLASSES" d)) ≡ true
    → IsConfigured
        (is_flag (entry_at "GALAXY_AUTH_KEYCLOAK_ENABLED" d))
        x
        (configure_authentication_classes s d)
unfolding configure_authentication_classes
configure_authentication_classes-IsConfigured s d x h =
    rw (set_nonempty out session_class d first) (record {
      out = out;
      ansible = (three_lists out d).0;
      galaxy = (three_lists out d).1;
      rest = (three_lists out d).2;
      sessions_first = first;
      kept = mem-session_first x classes here;
      with_keycloak_class =
          in_session_first enabled keycloak_class classes (keycloak_added enabled before);
    })
  where
    enabled : Bool
    enabled = is_flag (entry_at "GALAXY_AUTH_KEYCLOAK_ENABLED" d)

    before : List String
    before = classes_of s (entry_at "GALAXY_AUTHENTICATION_CLASSES" d)

    classes : List String
    classes = with_keycloak enabled before

    here : mem x classes ≡ true
    here = mem-with_keycloak x enabled before h

    out : List String
    out = session_first classes

    first : head out ≡ some session_class
    first = head_of_mem x classes here
