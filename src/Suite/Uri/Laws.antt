-- ===== src/Suite/Uri/Laws.antt =====
-- The URI helpers of tests/utils/utils.go: what is printed is read back.
use teleporter.Base.{
  ℕ, ◌^◌, ◌<◌, ◌≡◌, ◌≢◌, refl, [], ◌∷◌, ◌++◌, arith, false, length, length-append, text_eq,
}
use teleporter.Base.{ok, lt→ltb}
use teleporter.Text.{
  Text, Lacks, split_on-append, has_prefix, trim_prefix-append, trim_prefix_of_lacks,
}
use teleporter.Text.Decimal.{
  format_uint, format_uint-Lacks, format_uint-nonempty, parse_uint-format_uint,
}
use teleporter.Suite.Uri.{
  http_scheme, https_scheme, get_uri_host_and_port, strip_scheme, http_to_rpc_uri,
  http_to_websocket_uri,
}

-- The two schemes that the helper knows.
pub data Scheme : Type 0 where
  http https : Scheme

unfoldable pub scheme : Scheme → Text
scheme http = http_scheme
scheme https = https_scheme

strip_scheme-scheme : (p : Scheme) (s : Text) → strip_scheme (scheme p ++ s) ≡ ok s
unfolding strip_scheme scheme http_scheme https_scheme text_eq
strip_scheme-scheme http s = refl
strip_scheme-scheme https s = refl

length-scheme :
    (p : Scheme) (host : Text) (port : Text)
    → port ≢ []
    → 7 < length (scheme p ++ (host ++ (b':' ∷ port)))
unfolding scheme http_scheme https_scheme
length-scheme p host [] h = absurd (h refl)
length-scheme http host (c ∷ port) h = omega (arith, length-append host (b':' ∷ c ∷ port))
length-scheme https host (c ∷ port) h = omega (arith, length-append host (b':' ∷ c ∷ port))

-- Of a URI made of "http://" or "https://", a host without a colon and the decimal print of a 32-bit port,
-- `GetURIHostAndPort` returns that host and that port.
pub get_uri_host_and_port_lem :
    (p : Scheme) (host : Text) (port : ℕ)
    → Lacks b':' host
    → port < 2 ^ 32
    → get_uri_host_and_port (scheme p ++ (host ++ (b':' ∷ format_uint port))) ≡ ok (host, port)
unfolding get_uri_host_and_port
get_uri_host_and_port_lem p host port h fits = rw (
  lt→ltb _ _ (length-scheme p host (format_uint port) (format_uint-nonempty port)),
  strip_scheme-scheme p (host ++ (b':' ∷ format_uint port)),
  split_on-append b':' host (format_uint port) h (format_uint-Lacks port),
  parse_uint-format_uint 32 port fits,
)

-- A node's URI may be written with "http://" or without a scheme: the RPC and the websocket URI are the same.
pub node_uris-scheme :
    (uri id : Text)
    → has_prefix uri http_scheme ≡ false
    → (http_to_rpc_uri (http_scheme ++ uri) id ≡ http_to_rpc_uri uri id)
      × (http_to_websocket_uri (http_scheme ++ uri) id ≡ http_to_websocket_uri uri id)
unfolding http_to_rpc_uri http_to_websocket_uri
node_uris-scheme uri id h =
    rw (trim_prefix-append http_scheme uri, trim_prefix_of_lacks http_scheme uri h) (refl, refl)
