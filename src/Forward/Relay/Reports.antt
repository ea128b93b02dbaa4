-- ===== src/Forward/Relay/Reports.antt =====
-- What the proxy and the client get to see of credentials and challenges.
use mathlib.Core.Option
use bev_search.Common.{
  ℕ, Bool, true, false, not, ◌&&◌, ◌||◌, Option, some, none, List, [], ◌∷◌, ◌++◌, ◌≡◌, ◌≢◌, ◌⊎◌,
  inl, inr, refl, sym, ap, ◌∙◌, if◌then◌else◌, ◌==◌, ==_iff, or_true, true_ne, eq_other,
}
use bev_search.CString.{Bytes, codes, same_nocase, to_lower}
use bev_search.CString.Number.{ℤ}
use bev_search.Auth.{Auth}
use bev_search.Hlist.{Hlist, has, get, modify}
use bev_search.Hlist.Laws.{get-modify}
use bev_search.RrData.{RrData, new_rr_data, reset_rr_data}
use bev_search.Ntlm.Keys.{Crypto}
use bev_search.Http.Basic.{http_parse_basic}
use bev_search.Forward.{Exchange, Pool, Handshake, first_header, final_header, proxy_authenticate}
use bev_search.Forward.Authenticate.{proxy_authenticate-IsHandshake}
use bev_search.Forward.Relay.Stripped.{get-strip}
use bev_search.Forward.Relay.Holds.{Holds, missing, present, Holds-if, Holds-bind, Holds-cases}
use bev_search.Forward.Relay.{
  own_realm, keeps_alive, client_headers, client_answer, Turn, State, Event, Pass, probed, preceded,
  request, answer, login_page, error_page, tunnelled, stored, dropped, send_body, send_head,
  is_connect, body_answered, head_answered, answer_half, read_empty, answer_read, request_sent,
  send_request, handshake_answer, authenticated, credentials_for, authenticate_first, prepared,
  request_half, request_read, pass, differs,
}

-- The challenge that is found in an answer to the client: the realm of this program if it asks for
-- credentials, and none otherwise.
pub record IsHidden (r : RrData) : Type 0 where
  pub asks : r.code ≡ 407 → get r.headers (codes "Proxy-Authenticate") ≡ some own_realm
  pub silent : r.code ≢ 407 → get r.headers (codes "Proxy-Authenticate") ≡ none

realm_set :
    (l : Hlist)
    → get (modify l (codes "Proxy-Authenticate") own_realm true) (codes "Proxy-Authenticate")
      ≡ some own_realm
unfolding same_nocase to_lower
realm_set l =
    get-modify l (codes "Proxy-Authenticate") own_realm (codes "Proxy-Authenticate") true
    ∙ rw (or_true (has l (codes "Proxy-Authenticate"))) refl

pub client_answer-IsHidden : (r : RrData) → IsHidden (client_answer r)
unfolding client_answer
client_answer-IsHidden r =
    let marked =
      if keeps_alive r
      then r.headers
      else modify r.headers (codes "Connection") (codes "close") true in
    record {
      asks = λ e. rw ((==_iff r.code 407).1 e) (realm_set _);
      silent = λ n. rw (eq_other r.code 407 n) (get-strip marked (codes "Proxy-Authenticate"));
    }

module _ (ntlm_response : Bytes → Auth → Option Bytes) (resolve : ℕ → Bytes → Option ℕ)
    (connect : ℕ → ℕ → ℕ → ℤ) where
  -- Behind the first message of a handshake: its credentials, and the answer that it left.
  abbrev pub Seen : Type 0
  Seen = Option (Auth × Option RrData)

  abbrev pub next_seen : Event → Seen
  next_seen (probed creds r response) = some (creds, response)
  next_seen (request r) = none
  next_seen (answer r) = none
  next_seen login_page = none
  next_seen error_page = none
  next_seen (tunnelled sd) = none
  next_seen (stored sd creds) = none
  next_seen (dropped sd) = none

  -- A first message has the request for a challenge that its credentials give.
  abbrev pub IsOpening : Auth → RrData → Type 0
  IsOpening creds r =
      (header : Bytes) × (first_header creds ≡ some header)
      × (get r.headers (codes "Proxy-Authorization") ≡ some header)

  -- No credentials are found in a request, or, right behind a first message, those that answer, with the
  -- same credentials, the challenge of the answer to it.
  abbrev pub IsOwn : Seen → RrData → Type 0
  IsOwn none r = get r.headers (codes "Proxy-Authorization") ≡ none
  IsOwn (some (creds, response)) r =
      (get r.headers (codes "Proxy-Authorization") ≡ none)
      ⊎ ((left : RrData) × (tmp : Bytes) × (buf : Bytes) × (response ≡ some left)
          × (get left.headers (codes "Proxy-Authenticate") ≡ some tmp)
          × (final_header ntlm_response resolve connect creds tmp ≡ some (some buf))
          × (get r.headers (codes "Proxy-Authorization") ≡ some buf))

  abbrev pub IsClean : Seen → Event → Type 0
  IsClean seen (probed creds r response) = IsOpening creds r
  IsClean seen (request r) = r.req ≡ true → IsOwn seen r
  IsClean seen (answer r) = IsHidden r
  IsClean seen login_page = Unit
  IsClean seen error_page = Unit
  IsClean seen (tunnelled sd) = Unit
  IsClean seen (stored sd creds) = Unit
  IsClean seen (dropped sd) = Unit

  abbrev pub AllClean : Seen → List Event → Type 0
  AllClean seen [] = Unit
  AllClean seen (e ∷ events) = IsClean seen e × AllClean (next_seen e) events

  abbrev pub PassClean : Seen → Option Pass → Type 0
  PassClean seen = Holds (λ (p : Pass). AllClean seen p.events)

  pub AllClean-append :
      (seen : Seen) (xs ys : List Event)
      → AllClean seen xs
      → ((s : Seen) → AllClean s ys)
      → AllClean seen (xs ++ ys)
  AllClean-append seen [] ys hx hy = hy seen
  AllClean-append seen (e ∷ xs) ys (h, hx) hy = (h, AllClean-append (next_seen e) xs ys hx hy)

  pub one_more :
      (seen : Seen) (events : List Event) (e : Event)
      → AllClean seen events
      → ((s : Seen) → IsClean s e)
      → AllClean seen (events ++ e ∷ [])
  one_more seen events e h c = AllClean-append seen events (e ∷ []) h (λ s. (c s, tt))

  plain-IsOwn :
      (seen : Seen) (r : RrData) → get r.headers (codes "Proxy-Authorization") ≡ none → IsOwn seen r
  plain-IsOwn none r h = h
  plain-IsOwn (some (creds, response)) r h = inl h

  preceded-clean :
      (seen : Seen) (e : Event) (m : Option Pass)
      → IsClean seen e
      → PassClean (next_seen e) m
      → PassClean seen (Option.map (preceded e) m)
  unfolding preceded
  preceded-clean seen e none c h = missing
  preceded-clean seen e (some p) c (present h) = present (c, h)

  header_set :
      (l : Hlist) (buf : Bytes)
      → get (modify l (codes "Proxy-Authorization") buf true) (codes "Proxy-Authorization")
        ≡ some buf
  unfolding same_nocase to_lower
  header_set l buf =
      get-modify l (codes "Proxy-Authorization") buf (codes "Proxy-Authorization") true
      ∙ rw (or_true (has l (codes "Proxy-Authorization"))) refl

  body_clean :
      (seen : Seen) (s : State) (events : List Event) (data1 : RrData) (alive sent : Bool)
      → AllClean seen events
      → AllClean seen (body_answered s events data1 alive sent).events
  unfolding body_answered
  body_clean seen s events data1 alive true h = h
  body_clean seen s events data1 alive false h = h

  head_answered-clean :
      (seen : Seen) (turn : Turn) (s : State) (events : List Event) (data0 data1 : RrData)
      (alive good : Bool)
      → AllClean seen events
      → PassClean seen (head_answered turn s events data0 data1 alive good)
  unfolding head_answered
  head_answered-clean seen turn s events data0 data1 alive false h = present h
  head_answered-clean seen turn s events data0 data1 alive true h =
      Holds-if (is_connect data0 && data1.code == 200)
        (present (one_more seen events (tunnelled s.sd) h (λ _. tt)))
        (Holds-bind (send_body turn.to_client data0 data1) _
          (λ sent e. present (body_clean seen s events data1 alive sent h)))

  answer_half-clean :
      (seen : Seen) (turn : Turn) (s : State) (events : List Event) (data0 data1 : RrData)
      → AllClean seen events
      → PassClean seen (answer_half turn s events data0 data1)
  unfolding answer_half
  answer_half-clean seen turn s events data0 data1 h =
      let changed = client_answer data1 in
      Holds-if (data1.code == 407 && (s.was_cached || s.noauth))
        (present (one_more seen events (dropped s.sd) h (λ _. tt)))
        (Holds-bind (send_head turn.to_client changed) _ (λ good e.
          head_answered-clean seen turn _ (events ++ answer changed ∷ []) data0 changed
            (keeps_alive data1) good
            (one_more seen events (answer changed) h (λ _. client_answer-IsHidden data1))))

  read_clean :
      (seen : Seen) (turn : Turn) (s : State) (events : List Event) (data0 : RrData)
      (got : Option RrData)
      → AllClean seen events
      → PassClean seen (answer_read turn s events data0 got)
  unfolding answer_read
  read_clean seen turn s events data0 none h = present h
  read_clean seen turn s events data0 (some data1) h =
      answer_half-clean seen turn s events data0 data1 h

  request_sent-clean :
      (seen : Seen) (turn : Turn) (s : State) (events : List Event) (data0 data1 : RrData)
      (good : Bool)
      → AllClean seen events
      → PassClean seen (request_sent turn s events data0 data1 good)
  unfolding request_sent
  request_sent-clean seen turn s events data0 data1 false h = present h
  request_sent-clean seen turn s events data0 data1 true h =
      Holds-bind (read_empty turn.answer data1) _
        (λ got e. read_clean seen turn s events data0 got h)

  send_request-clean :
      (seen : Seen) (turn : Turn) (s : State) (data0 data1 : RrData)
      → IsClean seen (request data0)
      → PassClean seen (send_request turn s data0 data1)
  unfolding send_request
  send_request-clean seen turn s data0 data1 c =
      Holds-bind (send_head turn.to_proxy data0) _ (λ good e.
        Holds-if good
          (Holds-bind (send_body turn.to_proxy data0 data1) _ (λ sent e.
            request_sent-clean seen turn s (request data0 ∷ []) data0 data1 sent (c, tt)))
          (present (c, tt)))

  -- What the handshake leaves of a request that has no credentials of the client.
  handshake-IsOwn :
      (x : Exchange) (pool : Pool) (sd : ℤ) (data0 : RrData) (creds : Auth) (h : Handshake)
      → proxy_authenticate ntlm_response resolve connect x pool sd data0 (some new_rr_data) creds
        ≡ some h
      → h.rc ≡ true
      → get data0.headers (codes "Proxy-Authorization") ≡ none
      → IsOwn (some (creds, h.response)) h.request
  handshake-IsOwn x pool sd data0 creds h e good plain =
      let shake =
        proxy_authenticate-IsHandshake ntlm_response resolve connect x pool sd data0
          (some new_rr_data) creds h e in
      let (pretend407, got, pretended, received, end) = shake.answered good in
      let (left, there, same_headers) = end.headers new_rr_data refl in
      elim end.authorised [
        | inl (same, _) ↦
            inl (ap (λ (r : RrData). get r.headers (codes "Proxy-Authorization")) same ∙ plain)
        | inr (_, tmp, buf, challenged, final, same) ↦ inr (
          left,
          tmp,
          buf,
          there,
          ap (λ l. get l (codes "Proxy-Authenticate")) same_headers ∙ challenged,
          final,
          ap (λ (r : RrData). get r.headers (codes "Proxy-Authorization")) same
              ∙ header_set data0.headers buf,
        )
      ]

  handshake-opens :
      (x : Exchange) (pool : Pool) (sd : ℤ) (data0 : RrData) (creds : Auth) (h : Handshake)
      → proxy_authenticate ntlm_response resolve connect x pool sd data0 (some new_rr_data) creds
        ≡ some h
      → IsOpening creds h.probe
  handshake-opens x pool sd data0 creds h e =
      let shake =
        proxy_authenticate-IsHandshake ntlm_response resolve connect x pool sd data0
          (some new_rr_data) creds h e in
      (shake.header, shake.first, shake.probed.authorised)

  handshake_answer-clean :
      (seen : Seen) (turn : Turn) (s : State) (data0 : RrData) (response : Option RrData)
      → IsOwn seen data0
      → PassClean seen (handshake_answer turn s data0 response)
  unfolding handshake_answer
  handshake_answer-clean seen turn s data0 none own = missing
  handshake_answer-clean seen turn s data0 (some data1) own =
      Holds-if (data1.code == 407)
        (send_request-clean seen turn s data0 (reset_rr_data data1) (λ _. own))
        (answer_half-clean seen turn _ [] data0 data1 tt)

  authenticate_first-clean :
      (seen : Seen) (crypto : Crypto) (turn : Turn) (data0 : RrData) (s : State)
      → get data0.headers (codes "Proxy-Authorization") ≡ none
      → PassClean seen (authenticate_first crypto ntlm_response resolve connect turn data0 s)
  unfolding authenticate_first authenticated
  authenticate_first-clean seen crypto turn data0 s plain =
      Holds-if (not s.authok && not s.noauth)
        (Holds-bind
          (proxy_authenticate ntlm_response resolve connect turn.exchange s.pool s.sd data0
            (some new_rr_data) s.tcreds)
          _
          (λ h e.
            let opening = probed s.tcreds h.probe h.response in
            preceded-clean seen opening _
              (handshake-opens turn.exchange s.pool s.sd data0 s.tcreds h e)
              (Holds-cases h.rc
                (λ good.
                  handshake_answer-clean (next_seen opening) turn _ h.request h.response
                    (handshake-IsOwn turn.exchange s.pool s.sd data0 s.tcreds h e good plain))
                (λ _. present tt))))
        (send_request-clean seen turn s data0 new_rr_data (λ _. plain-IsOwn seen data0 plain))

  prepared-clean :
      (seen : Seen) (crypto : Crypto) (turn : Turn) (header_list : Hlist) (data0 : RrData)
      (s : State) (known : Option State)
      → PassClean seen
          (prepared crypto ntlm_response resolve connect turn header_list data0 s known)
  unfolding prepared client_headers
  prepared-clean seen crypto turn header_list data0 s none = present (tt, tt)
  prepared-clean seen crypto turn header_list data0 s (some known) =
      authenticate_first-clean seen crypto turn
        (record data0 { headers = client_headers header_list data0.headers }) known
        (get-strip _ (codes "Proxy-Authorization"))

  request_half-clean :
      (seen : Seen) (crypto : Crypto) (turn : Turn) (header_list : Hlist) (s : State)
      (data0 : RrData)
      → PassClean seen (request_half crypto ntlm_response resolve connect turn header_list s data0)
  unfolding request_half
  request_half-clean seen crypto turn header_list s data0 =
      Holds-cases data0.req
        (λ is_request.
          Holds-bind (http_parse_basic crypto data0.headers (codes "Proxy-Authorization") s.tcreds)
            _
            (λ basic e.
              prepared-clean seen crypto turn header_list data0 s (credentials_for s basic)))
        (λ other.
          send_request-clean seen turn s data0 new_rr_data (λ e. absurd (true_ne (sym e ∙ other))))

  read_clean_request :
      (seen : Seen) (crypto : Crypto) (turn : Turn) (header_list : Hlist) (s : State)
      (got : Option RrData)
      → PassClean seen (request_read crypto ntlm_response resolve connect turn header_list s got)
  unfolding request_read
  read_clean_request seen crypto turn header_list s none = present tt
  read_clean_request seen crypto turn header_list s (some data0) =
      Holds-if (differs s.hostname data0.hostname) (present tt)
        (request_half-clean seen crypto turn header_list s data0)

  pub pass-clean :
      (seen : Seen) (crypto : Crypto) (turn : Turn) (header_list : Hlist) (s : State)
      (data0 : RrData)
      → PassClean seen (pass crypto ntlm_response resolve connect turn header_list s data0)
  unfolding pass
  pass-clean seen crypto turn header_list s data0 =
      Holds-bind (read_empty turn.client data0) _
        (λ got e. read_clean_request seen crypto turn header_list s got)
