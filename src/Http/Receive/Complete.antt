-- ===== src/Http/Receive/Complete.antt =====
-- What a message that was received has.
use bev_search.Common.{
  true_ne, test_ne, ℕ, ◌<◌, Bool, true, false, not, ◌||◌, Option, none, some, List, [], ◌∷◌, ◌==◌,
  if◌then◌else◌, ◌≡◌, ◌≢◌, ◌⊎◌, refl, sym, ap, ◌∙◌, arith, length, Bool-cases, inl, inr,
}
use bev_search.CString.{Bytes, codes, begins_nocase, strstr, strchr, is_some}
use mathlib.Core.Option
use mathlib.Core.Option.{some-injective}
use bev_search.Strings.{trimr}
use bev_search.Hlist
use bev_search.Hlist.{Hlist, node}
use bev_search.Hlist.Laws
use bev_search.RrData.{RrData}
use bev_search.CString.Number.{atoi}
use bev_search.Http.Header.{◌>>=◌}
use bev_search.Http.Receive.{
  Received, Token, strtok, Head, response_code, response_line, head_kind, request_url, request_line,
  head_line, port_at, split_port, with_host, is_named, request_host, Result, finish, receive_rest,
  headers_recv,
}
use bev_search.Http.Receive.Runs.{split_url-Runs, read_headers-Runs}

-- A first line that was accepted: of a request with its three words, or of a response with a code
-- that is not 0.
abbrev pub IsHead : RrData → Type 0
IsHead d =
    ((d.req ≡ true)
      × ((method : Bytes) × (d.method ≡ some method))
      × ((url : Bytes) × (d.url ≡ some url))
      × ((path : Bytes) × (d.rel_url ≡ some path))
      × ((http : Bytes) × (d.http ≡ some http)))
    ⊎ ((d.req ≡ false)
        × (d.code ≢ 0)
        × ((http : Bytes) × (d.http ≡ some http))
        × ((msg : Bytes) × (d.msg ≡ some msg)))

-- A first line is read without an access outside of it.
abbrev HeadRuns : Option Head → Type 0
HeadRuns o = (h : Head) × (o ≡ some h) × (h.failed ≡ false → IsHead h.message)

request_url_head :
    (d : RrData) (url http : Option Bytes) (method : Bytes)
    → d.req ≡ true
    → d.method ≡ some method
    → HeadRuns (request_url d url http)
unfolding request_url
request_url_head d none http method req named = (_, refl, λ e. cc)
request_url_head d (some url) none method req named = (_, refl, λ e. cc)
request_url_head d (some url) (some http) method req named =
    let parts = split_url-Runs url in
    (
      record {
        message = record d { url = some url; http = some http; rel_url = some parts.0.1 };
        host = some parts.0.0;
        failed = false;
      },
      rw parts.1,
      λ _. inl (req, (method, named), (url, refl), (parts.0.1, refl), (http, refl)),
    )

request_line_head : (d : RrData) (tok : Token) → HeadRuns (request_line d tok)
unfolding request_line
request_line_head d tok = request_url_head _ _ _ tok.token refl refl

response_code-IsHead :
    (d : RrData) (ccode : Option Bytes) (http msg : Bytes)
    → d.req ≡ false
    → d.http ≡ some http
    → d.msg ≡ some msg
    → (response_code d ccode).failed ≡ false
    → IsHead (response_code d ccode).message
unfolding response_code
response_code-IsHead d none http msg req h m = λ e. cc
response_code-IsHead d (some ccode) http msg req h m = elim (Bool-cases (length ccode == 3)) [
  | inl three ↦ rw three (λ e. inr (req, (λ z. test_ne (atoi ccode) 0 e z), (http, h), (msg, m)))
  | inr other ↦ rw other (λ e. absurd (true_ne e))
]

response_line_head : (d : RrData) (tok : Token) → HeadRuns (some (response_line d tok))
unfolding response_line
response_line_head d tok = (response_line d tok, refl, response_code-IsHead _ _ _ _ refl refl refl)

if_head : (b : Bool) (x y : Option Head) → HeadRuns x → HeadRuns y → HeadRuns (if b then x else y)
if_head true x y h k = h
if_head false x y h k = k

head_kind_head : (d : RrData) (buf : Bytes) (tok : Option Token) → HeadRuns (head_kind d buf tok)
head_kind_head d buf none = (_, refl, λ e. cc)
head_kind_head d buf (some tok) =
    if_head (begins_nocase buf (codes "HTTP/") || begins_nocase tok.token (codes "ICY")) _ _
      (response_line_head d tok)
      (if_head (is_some (strstr buf (codes " HTTP/"))) _ _ (request_line_head d tok)
        (_, refl, λ e. cc))

-- A message whose host, if it is a request, is known: its name, its port, and the header that names it.
abbrev pub IsHosted : RrData → Type 0
IsHosted d =
    d.req ≡ true
    → ((host : Bytes) × (d.hostname ≡ some host) × (0 < length host))
      × (d.port ≢ 0)
      × (is_some (Hlist.get d.headers (codes "Host")) ≡ true)

named_port :
    (o : Option Bytes) (port : ℕ)
    → (not (is_named o) || port == 0) ≡ false
    → ((host : Bytes) × (o ≡ some host) × (0 < length host)) × (port ≢ 0)
unfolding is_named
named_port none port e = absurd (true_ne e)
named_port (some host) port e = ((host, refl, ground arith), test_ne port 0 (ground arith))

with_host-IsHead : (d : RrData) (host : Bytes) → IsHead d → IsHead (with_host d host)
unfolding with_host
with_host-IsHead d host h = elim (Bool-cases (is_some (Hlist.get d.headers (codes "Host")))) [
  | inl there ↦ rw there h
  | inr missing ↦ rw missing h
]

with_host_found :
    (d : RrData) (host : Bytes)
    → is_some (Hlist.get (with_host d host).headers (codes "Host")) ≡ true
unfolding with_host
with_host_found d host = elim (Bool-cases (is_some (Hlist.get d.headers (codes "Host")))) [
  | inl there ↦ rw (there, there)
  | inr missing ↦ rw missing (Hlist.Laws.get-add_found d.headers (codes "Host") host)
]

port_at_kept :
    (d : RrData) (host : Bytes) (o : Option Bytes)
    → IsHead d
    → IsHead (port_at d host o) × ((port_at d host o).headers ≡ d.headers)
port_at_kept d host none h = (h, refl)
port_at_kept d host (some tok) h = (h, refl)

request_host_complete :
    (d : RrData) (host : Option Bytes)
    → IsHead d
    → (request_host d host).1 ≡ false
    → IsHead (request_host d host).0 × IsHosted (request_host d host).0
unfolding request_host split_port
request_host_complete d none h = λ e. absurd (true_ne e)
request_host_complete d (some host) h = elim (Bool-cases (length host == 0)) [
  | inl empty ↦ rw empty (λ e. absurd (true_ne e))
  | inr named ↦
      (let with = with_host d host in
        let done = port_at with host (strchr host b':') in
        let kept = port_at_kept with host (strchr host b':') (with_host-IsHead d host h) in
        rw named (λ e.
          let known = named_port done.hostname done.port e in
          (
            kept.0,
            λ _. (
              known.0,
              known.1,
              ap (λ l. is_some (Hlist.get l (codes "Host"))) kept.1 ∙ with_host_found d host,
            ),
          )))
]

abbrev one_if : Bool → ℕ
one_if b = if b then 1 else 0

failure_first : (failed good : Bool) → (if failed then 0 else one_if good) ≡ 1 → failed ≡ false
failure_first true good e = absurd (omega (arith, e))
failure_first false good e = refl

-- A result of 1 comes with a complete message.
abbrev pub IsComplete : Result → Type 0
IsComplete r = r.rc ≡ 1 → IsHead r.message × IsHosted r.message

module _ {A : Type 0} (P : A → Type 0) where
  if_either : (b : Bool) (x y : A) → (b ≡ true → P x) → (b ≡ false → P y) → P (if b then x else y)
  if_either true x y h k = h refl
  if_either false x y h k = k refl

finish-IsComplete :
    (d : RrData) (host : Option Bytes) (headers : Hlist) (good : Bool)
    → IsHead d
    → IsComplete (finish d host (headers, good))
unfolding finish
finish-IsComplete d host headers good h =
    let all = record d { headers = headers } in
    let fixed = request_host all host in
    if_either IsComplete d.req _ _
      (λ req e. request_host_complete all host h (failure_first fixed.1 good e))
      (λ response e. (h, λ req. absurd (true_ne (sym req ∙ response))))

abbrev Completes : Option Result → Type 0
Completes o = (r : Result) × (o ≡ some r) × IsComplete r

ends_here : (d : RrData) → Completes (some (record { message = d; rc = 0 }))
ends_here d = (record { message = d; rc = 0 }, refl, λ e. absurd (omega (arith, e)))

receive_rest-Completes :
    (lines : List Received) (head : Head)
    → (head.failed ≡ false → IsHead head.message)
    → Completes (receive_rest lines head)
unfolding receive_rest
receive_rest-Completes lines head ok =
    let headers = read_headers-Runs lines head.message.headers in
    if_either Completes head.failed _ _ (λ failed. ends_here head.message)
      (λ fine. (
        finish head.message head.host headers.0,
        ap (Option.map (finish head.message head.host)) headers.1,
        finish-IsComplete head.message head.host headers.0.0 headers.0.1 (ok fine),
      ))

-- Whatever is received, `headers_recv` stays inside of its texts and comes to an end with the lines.
-- If it returns 1, the message is a request with a method, a URL, a path and a protocol, with a host
-- name that is not empty, a port that is not 0 and a Host header, or it is a response with a protocol,
-- a text and a code that is not 0.
pub headers_recv-IsComplete :
    (lines : List Received) (d : RrData)
    → (r : Result) × (headers_recv lines d ≡ some r) × IsComplete r
unfolding headers_recv head_line
headers_recv-IsComplete [] d = ends_here d
headers_recv-IsComplete (r ∷ lines) d =
    let buf = trimr r.text in
    let head = head_kind_head d buf (strtok buf) in
    let rest = receive_rest-Completes lines head.0 head.2 in
    if_either Completes r.good _ _
      (λ _. (rest.0, ap (λ h. h >>= receive_rest lines) head.1 ∙ rest.1, rest.2)) (λ _. ends_here d)
