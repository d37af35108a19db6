-- ===== src/Startup/Connected.antt =====
-- galaxy_ng/app/dynaconf_hooks.py: authentication where a resource server is connected.
use galaxy_ng.Prelude.{
  ◌≡◌, refl, sym, ap, ◌∙◌, inl, inr, String, str_eq, Text, Bool, true, false, List, [], ◌∷◌, Option,
  none, some, if◌then◌else◌, Bool-cases,
}
use galaxy_ng.Json.{Value, null, flag, num, text, arr, obj, is_true, Members}
use galaxy_ng.Startup.Model.{
  Settings, Entry, value, names, made, Data, entry_at, set, entry_at-set, update, setting_of,
  or_value,
}
use galaxy_ng.Startup.Auth.{
  configure_authentication_classes, configure_authentication_backends, set_classes,
  after_socialauth, after_socialauth-value_of,
}
use galaxy_ng.Startup.Classes.{three_lists}
use galaxy_ng.Startup.Post.{
  Libraries, hooks_of, cli_of, ◌>>=◌, configure_dynamic_settings, configure_dynaconf_cli, validate,
  hooked, jwt_only, is_set, connected, set_storages, with_storage, data_after_dab, with_dynamic,
  post,
}

-- A key that the last steps of the hook do not set.
record IsKept (k : String) : Type 0 where
  no_storages : str_eq "STORAGES" k ≡ false
  no_file_storage : str_eq "DEFAULT_FILE_STORAGE" k ≡ false
  no_hooks : str_eq "_registered_hooks" k ≡ false
  no_cli : str_eq "CLI_DYNACONF" k ≡ false

get_other :
    (k j : String) (e : Entry) (d : Data)
    → str_eq j k ≡ false
    → entry_at k (set j e d) ≡ entry_at k d
get_other k j e d h = entry_at-set k j e d ∙ rw h refl

module _ (k : String) (kept : IsKept k) where
  storages_kept :
      (o : Option (Text × Text)) (m : Members) (d : Data)
      → entry_at k (set_storages o m d) ≡ entry_at k d
  storages_kept none m d = refl
  storages_kept (some (b, dfs)) m d =
      get_other k "DEFAULT_FILE_STORAGE" _ _ kept.no_file_storage
      ∙ get_other k "STORAGES" _ d kept.no_storages

  with_storage_kept : (s : Settings) (d : Data) → entry_at k (with_storage s d) ≡ entry_at k d
  unfolding with_storage
  with_storage_kept s d = storages_kept _ _ d

  hooks_kept :
      (lib : Libraries) (hs : List String) (d : Data)
      → entry_at k (update d (hooks_of lib hs)) ≡ entry_at k d
  hooks_kept lib [] d = refl
  hooks_kept lib (h ∷ hs) d = elim (Bool-cases lib.has_hooking) [
    | inl present ↦ rw present (get_other k "_registered_hooks" _ d kept.no_hooks)
    | inr missing ↦ rw missing refl
  ]

  with_dynamic_kept :
      (lib : Libraries) (b : Bool) (s : Settings) (d : Data)
      → entry_at k (with_dynamic lib b s d) ≡ entry_at k d
  unfolding with_dynamic configure_dynamic_settings
  with_dynamic_kept lib false s d = refl
  with_dynamic_kept lib true s d = hooks_kept lib _ d

  cli_of_kept : (o : Option Entry) (d r : Data) → cli_of o d ≡ some r → entry_at k r ≡ entry_at k d
  cli_of_kept none d r e = absurd cc
  cli_of_kept (some x) d r e =
      let same : set "CLI_DYNACONF" (made "CLI_DYNACONF" []) d ≡ r = cc in
      ap (entry_at k) (sym same) ∙ get_other k "CLI_DYNACONF" _ d kept.no_cli

  cli_kept : (d r : Data) → configure_dynaconf_cli d ≡ some r → entry_at k r ≡ entry_at k d
  unfolding configure_dynaconf_cli
  cli_kept d r e = cli_of_kept (entry_at "DAB_DYNACONF" d) d r e

split_bind :
    {A B : Type 0} (m : Option A) (f : A → Option B) (b : B)
    → (m >>= f) ≡ some b
    → (a : A) × (m ≡ some a) × (f a ≡ some b)
split_bind none f b e = absurd cc
split_bind (some a) f b e = (a, refl, e)

-- What the hook returns is, but for these keys, what `connected` made of the data.
post-IsKept :
    (lib : Libraries) (b c : Bool) (s t : Settings) (r : Data)
    → post lib b c s ≡ some (r, t)
    → (d : Data) × ((k : String)
        → IsKept k
        → entry_at k r ≡ entry_at k (connected (after_socialauth s) d))
unfolding post data_after_dab
post-IsKept lib b c s t r e =
    let grown = after_socialauth s in
    let (base, e1, rest1) = split_bind (hooked lib s) _ (r, t) e in
    let (final, e2, rest2) =
      split_bind (if c then validate lib grown else some grown) _ (r, t) rest1 in
    let (result, e3, rest3) =
      split_bind (configure_dynaconf_cli (with_dynamic lib b grown (data_after_dab lib grown base)))
        _ (r, t) rest2 in
    let same : result ≡ r = cc in
    let a =
      configure_authentication_classes grown
        (configure_authentication_backends grown (update base (lib.dab grown base))) in
    (
      a,
      λ k kept.
          ap (entry_at k) (sym same)
          ∙ cli_kept k kept (with_dynamic lib b grown (data_after_dab lib grown base)) result e3
          ∙ with_dynamic_kept k kept lib b grown (data_after_dab lib grown base)
          ∙ with_storage_kept k kept grown (connected grown a),
    )

is_set-true : (o : Option Value) → is_true (or_value null o) ≡ true → is_set o ≡ true
is_set-true none h = absurd cc
is_set-true (some null) h = absurd cc
is_set-true (some (flag x)) h = refl
is_set-true (some (num n)) h = refl
is_set-true (some (text x)) h = refl
is_set-true (some (arr v)) h = refl
is_set-true (some (obj m)) h = refl

abbrev ansible_key : String
ansible_key = "ANSIBLE_AUTHENTICATION_CLASSES"

abbrev galaxy_key : String
galaxy_key = "GALAXY_AUTHENTICATION_CLASSES"

abbrev rest_key : String
rest_key = "REST_FRAMEWORK__DEFAULT_AUTHENTICATION_CLASSES"

abbrev connected_key : String
connected_key = "IS_CONNECTED_TO_RESOURCE_SERVER"

-- Only tokens of the gateway are accepted.
pub record IsJwtOnly (d : Data) : Type 0 where
  pub ansible : entry_at "ANSIBLE_AUTHENTICATION_CLASSES" d ≡ some (names jwt_only)
  pub galaxy : entry_at "GALAXY_AUTHENTICATION_CLASSES" d ≡ some (names jwt_only)
  pub rest : entry_at "REST_FRAMEWORK__DEFAULT_AUTHENTICATION_CLASSES" d ≡ some (names jwt_only)
  pub is_connected : entry_at "IS_CONNECTED_TO_RESOURCE_SERVER" d ≡ some (value (flag true))

connected-IsJwtOnly :
    (s : Settings) (d : Data)
    → is_true (setting_of s "RESOURCE_SERVER__URL") ≡ true
    → IsJwtOnly (connected s d)
unfolding connected
connected-IsJwtOnly s d h =
    let lists = three_lists jwt_only d in
    let e = value (flag true) in
    let inner = set_classes jwt_only d in
    rw (h, is_set-true (s.value_of "RESOURCE_SERVER__URL") h)
      (record {
        ansible = get_other ansible_key connected_key e inner refl ∙ lists.0;
        galaxy = get_other galaxy_key connected_key e inner refl ∙ lists.1;
        rest = get_other rest_key connected_key e inner refl ∙ lists.2;
        is_connected = entry_at-set connected_key connected_key e inner;
      })

-- With an address of a resource server that is not empty, the settings that the hook returns
-- accept only tokens of the gateway in all three lists of authentication classes, and say that a
-- resource server is connected, whatever the other settings and the libraries are.
pub post-IsJwtOnly :
    (lib : Libraries) (run_dynamic run_validate : Bool) (s t : Settings) (d : Data)
    → is_true (setting_of s "RESOURCE_SERVER__URL") ≡ true
    → post lib run_dynamic run_validate s ≡ some (d, t)
    → IsJwtOnly d
post-IsJwtOnly lib run_dynamic run_validate s t d h e =
    let (a, keeps) = post-IsKept lib run_dynamic run_validate s t d e in
    let grown = after_socialauth s in
    let url : is_true (setting_of grown "RESOURCE_SERVER__URL") ≡ true =
      ap (λ o. is_true (or_value null o)) (after_socialauth-value_of s "RESOURCE_SERVER__URL")
      ∙ h in
    let done = connected-IsJwtOnly grown a url in
    record {
      ansible = keeps ansible_key (easily_kept ansible_key refl refl refl refl) ∙ done.ansible;
      galaxy = keeps galaxy_key (easily_kept galaxy_key refl refl refl refl) ∙ done.galaxy;
      rest = keeps rest_key (easily_kept rest_key refl refl refl refl) ∙ done.rest;
      is_connected =
          keeps connected_key (easily_kept connected_key refl refl refl refl) ∙ done.is_connected;
    }
  where
    easily_kept :
        (k : String)
        → str_eq "STORAGES" k ≡ false
        → str_eq "DEFAULT_FILE_STORAGE" k ≡ false
        → str_eq "_registered_hooks" k ≡ false
        → str_eq "CLI_DYNACONF" k ≡ false
        → IsKept k
    easily_kept k a b c i = record {
      no_storages = a;
      no_file_storage = b;
      no_hooks = c;
      no_cli = i;
    }
