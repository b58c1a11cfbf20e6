-- ===== src/Http.antt =====
-- What the code sees of one HTTP request, and the URLs that it builds
-- (internal/modeltracker/tracker.go, internal/router/router.go, internal/plugins/modelloader/loader.go,
-- internal/vram/scraper.go). The network, the servers and the JSON decoder are not modelled: a reply
-- is an input of the code.
use Prim.Native.Char.{code}
use Prim.Native.String.{slice}
use Prim.Native.String.{◌++◌ as ◌⧺◌}
use rocm_llamacpp_envoy_ai_g.Prelude.{
  ℕ, zero, suc, ◌+◌, ◌/◌, ◌%◌, String, Bool, false, ◌||◌, ltb, nat_eq, if◌then◌else◌,
}

-- The body of a response: reading it fails, decoding it fails, or it decodes to a value.
pub data Body (A : Type 0) : Type 0 where
  unreadable : Body A
  undecodable : Body A
  decoded : A → Body A

-- `http.NewRequestWithContext` fails, `client.Do` fails, or a response with a status code arrives.
pub data Reply (A : Type 0) : Type 0 where
  no_request : Reply A
  no_response : Reply A
  response : ℕ → Body A → Reply A

abbrev pub status_ok : ℕ
status_ok = 200

abbrev pub status_created : ℕ
status_created = 201

abbrev pub status_accepted : ℕ
status_accepted = 202

-- strconv.Itoa of a number that is not negative; a number has fewer digits than its successor.
digits : ℕ → ℕ → String
digits zero n = ""
digits (suc f) n =
    let more = digits f (n / 10) in
    let last = slice "0123456789" (n % 10) (n % 10 + 1) in if ltb n 10 then last else more ⧺ last

pub itoa : ℕ → String
unfolding digits
itoa n = digits (suc n) n

has_colon : String → Bool
has_colon String.[] = false
has_colon (String.◌∷◌ c s) = nat_eq (code c) 58 || has_colon s

-- net.JoinHostPort: an IPv6 address is put in brackets.
pub join_host_port : String → String → String
unfolding has_colon
join_host_port host port = if has_colon host then "[" ⧺ host ⧺ "]:" ⧺ port else host ⧺ ":" ⧺ port

-- "http://" + net.JoinHostPort(ip, strconv.Itoa(port)) + path
unfoldable pub url : String → ℕ → String → String
unfolding itoa join_host_port
url ip port path = "http://" ⧺ join_host_port ip (itoa port) ⧺ path
