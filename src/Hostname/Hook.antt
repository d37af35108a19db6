-- ===== src/Hostname/Hook.antt =====
-- galaxy_ng/app/dynaconf_hooks.py: `alter_hostname_settings` and what it calls.
use galaxy_ng.Prelude.{
  Text, text_eq, codes, lower, upper, contains, Bool, true, false, not, ◌&&◌, ◌||◌, List, [], ◌∷◌,
  ◌++◌, any, Option, none, some, if◌then◌else◌,
}
use galaxy_ng.Hostname.Split.{split_on, cut, is_blank, is_quote, strip_of}

-- The truth of a text that may be None.
abbrev pub given : Option Text → Bool
given none = false
given (some []) = false
given (some (c ∷ s)) = true

-- `a or b`
abbrev pub either : Option Text → Option Text → Option Text
either a b = if given a then a else b

-- The protocol and the host that were found.
pub record Found : Type 0 where
  pub proto : Option Text
  pub host : Option Text

abbrev pub nothing_found : Found
nothing_found = record { proto = none; host = none }

-- A key and its value count where nothing was found before them.
unfoldable pub add_key : Found → Text → Text → Found
add_key found key value =
    if text_eq key (codes "proto") && not (given found.proto)
    then record found { proto = some value }
    else if text_eq key (codes "host") && not (given found.host)
    then record found { host = some value }
    else found

-- A parameter of an entry; one without a value is skipped.
unfoldable pub read_param : Found → Text → Found
unfolding lower
read_param found param = elim (cut b'=' (strip_of is_blank param)) [
  | none ↦ found
  | some kv ↦
      add_key found (lower (strip_of is_blank kv.0)) (strip_of is_quote (strip_of is_blank kv.1))
]

unfoldable pub read_params : Found → List Text → Found
read_params found [] = found
read_params found (p ∷ ps) = read_params (read_param found p) ps

unfoldable pub read_entries : Found → List Text → Found
read_entries found [] = found
read_entries found (entry ∷ rest) =
    read_entries (read_params found (split_on b';' (strip_of is_blank entry))) rest

unfoldable pub parse_forwarded_header : Text → Found
parse_forwarded_header header = read_entries nothing_found (split_on b',' header)

pub record Headers : Type 0 where
  pub x_forwarded_proto : Option Text
  pub x_forwarded_host : Option Text
  pub host_header : Option Text
  pub forwarded : Option Text

unfoldable pub extract_proto_and_host : Headers → Found
extract_proto_and_host headers =
    let proto = headers.x_forwarded_proto in
    let host = either headers.x_forwarded_host headers.host_header in
    if given proto && given host
    then record { proto = proto; host = host }
    else elim headers.forwarded [
      | none ↦ record { proto = proto; host = host }
      | some header ↦
          if given (some header)
          then (let found = parse_forwarded_header header in
              record { proto = either proto found.proto; host = either host found.host })
          else record { proto = proto; host = host }
    ]

pub record Request : Type 0 where
  pub headers : Headers
  pub is_secure : Bool
  pub absolute_uri : Text

unfoldable pub apply_proto_host_fallbacks : Found → Request → Text × Text
apply_proto_host_fallbacks found req = (
  elim found.proto [
    | none ↦ if req.is_secure then codes "https" else codes "http"
    | some p ↦ if given (some p) then p else if req.is_secure then codes "https" else codes "http"
  ],
  elim found.host [
    | none ↦ codes "localhost:5001"
    | some h ↦ if given (some h) then h else codes "localhost:5001"
  ],
)

abbrev pub allowed_keys : List Text
allowed_keys = codes "CONTENT_ORIGIN" ∷ codes "ANSIBLE_API_HOSTNAME" ∷ codes "TOKEN_SERVER" ∷ []

-- The value of a setting, or the SuspiciousOperation.
pub data Answer : Type 0 where
  setting : Text → Answer
  suspicious : Answer

unfoldable pub base_url : Text → Text × Text → Text
unfolding upper
base_url key (proto, host) =
    let baseurl = proto ++ (codes "://" ++ host) in
    if text_eq (upper key) (codes "TOKEN_SERVER") then baseurl ++ codes "/token/" else baseurl

-- `_validate_resource_server_headers`, with what passes it.
unfoldable pub validate_resource_server_headers : Found → Option (Text × Text)
validate_resource_server_headers found =
    if given found.proto && given found.host
    then elim found.proto [
      | none ↦ none
      | some p ↦ elim found.host [ none ↦ none | some h ↦ some (p, h) ]
    ]
    else none

unfoldable pub alter_hostname_settings :
    (apps_ready connected : Bool) → Option Request → (value key : Text) → Answer
unfolding upper
alter_hostname_settings apps_ready connected request value key =
    if not apps_ready || not (any (text_eq (upper key)) allowed_keys)
    then setting value
    else elim request [
      | none ↦ setting value
      | some req ↦
          let found = extract_proto_and_host req.headers in
          if connected && contains (codes "/content/") req.absolute_uri
          then elim (validate_resource_server_headers found) [
            | none ↦ suspicious
            | some pair ↦ setting (base_url key pair)
          ]
          else setting (base_url key (apply_proto_host_fallbacks found req))
    ]
