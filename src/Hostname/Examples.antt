-- ===== src/Hostname/Examples.antt =====
-- The host of a request at concrete inputs.
use galaxy_ng.Prelude.{
  ◌++◌, ◌∷◌, ◌≡◌, refl, codes, upper, upper_code, lower, lower_code, true, false, [], none, some,
}
use galaxy_ng.Hostname.Hook.{
  add_key, read_param, read_params, read_entries, parse_forwarded_header, Headers,
  extract_proto_and_host, Request, alter_hostname_settings, base_url, apply_proto_host_fallbacks,
  validate_resource_server_headers, setting,
}
use galaxy_ng.Hostname.Forwarded.{merge, parse_forwarded_header-append}
use galaxy_ng.Hostname.RoundTrip.{written_header, parse_forwarded_header-written_header}

hostname_code : Unit {0}
unfolding add_key read_param read_params read_entries parse_forwarded_header extract_proto_and_host
    alter_hostname_settings base_url apply_proto_host_fallbacks validate_resource_server_headers
    upper upper_code lower lower_code
hostname_code = tt

-- The second example of the docstring.
docstring_header :
    parse_forwarded_header (codes "for=192.0.2.60;proto=https;by=203.0.113.43;host=example.com")
    ≡ record { proto = some (codes "https"); host = some (codes "example.com") }
unfolding hostname_code
docstring_header = refl

abbrev no_headers : Headers
no_headers = record {
  x_forwarded_proto = none;
  x_forwarded_host = none;
  host_header = some (codes "hub:443");
  forwarded = none;
}

abbrev download : Request
download = record {
  headers = no_headers;
  is_secure = true;
  absolute_uri = codes "https://hub:443/content/x";
}

-- Without a resource server the protocol is that of the request.
fallback_used :
    alter_hostname_settings true false (some download) [] (codes "token_server")
    ≡ setting (codes "https://hub:443/token/")
unfolding hostname_code
fallback_used = refl

parse_forwarded_header-written_header_example :
    parse_forwarded_header (written_header (codes "https") (codes "hub.example"))
    ≡ record { proto = some (codes "https"); host = some (codes "hub.example") }
parse_forwarded_header-written_header_example =
    parse_forwarded_header-written_header (codes "https") (codes "hub.example") refl refl

parse_forwarded_header-append_example :
    parse_forwarded_header (codes "proto=https" ++ b',' ∷ codes "host=a")
    ≡ merge (parse_forwarded_header (codes "proto=https")) (parse_forwarded_header (codes "host=a"))
parse_forwarded_header-append_example =
    parse_forwarded_header-append (codes "proto=https") (codes "host=a")
