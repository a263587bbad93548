-- ===== src/Suite/Uri.antt =====
-- The URI helpers of tests/utils/utils.go. A text is the bytes of the Go string.
pub mod Laws
use teleporter.Base.{ℕ, List, [], ◌∷◌, ◌++◌, ltb, length, take, drop, text_eq, if◌then◌else◌}
use teleporter.Base.{Outcome, ok, fail, panic, new, quoting, ◌>>=◌, ◌>>◌, wrapping, expect}
use teleporter.Text.{Text, codes, trim_prefix, split_on}
use teleporter.Text.Decimal.{parse_uint}

unfoldable pub http_scheme : Text
http_scheme = codes "http://"

unfoldable pub https_scheme : Text
https_scheme = codes "https://"

-- `HttpToWebsocketURI`
unfoldable pub http_to_websocket_uri : Text → Text → Text
http_to_websocket_uri uri blockchain_id =
    codes "ws://"
    ++ (trim_prefix uri http_scheme ++ (codes "/ext/bc/" ++ (blockchain_id ++ codes "/ws")))

-- `HttpToRPCURI`
unfoldable pub http_to_rpc_uri : Text → Text → Text
http_to_rpc_uri uri blockchain_id =
    codes "http://"
    ++ (trim_prefix uri http_scheme ++ (codes "/ext/bc/" ++ (blockchain_id ++ codes "/rpc")))

-- The scheme is cut off, or the error of a text with another scheme.
unfoldable pub strip_scheme : Text → Outcome Text
strip_scheme uri =
    if text_eq (take 7 uri) http_scheme
    then ok (drop 7 uri)
    else if text_eq (take 8 uri) https_scheme
    then ok (drop 8 uri)
    else fail (quoting "invalid uri" uri)

-- `Expect(len(hostAndPort)).Should(Equal(2))`, and the two parts.
unfoldable pub two_parts : List Text → Outcome (Text × Text)
two_parts (host ∷ port ∷ []) = ok (host, port)
two_parts _ = panic (new "Expect(len(hostAndPort)).Should(Equal(2))")

-- `GetURIHostAndPort`
unfoldable pub get_uri_host_and_port : Text → Outcome (Text × ℕ)
unfolding strip_scheme two_parts
get_uri_host_and_port uri = do
  expect (ltb 7 (length uri)) "Expect(len(uri)).Should(BeNumerically(>, 7))"
  uri ← strip_scheme uri
  host_and_port ← two_parts (split_on b':' uri)
  port ← wrapping "failed to parse port" (parse_uint host_and_port.1 32)
  ok (host_and_port.0, port)
