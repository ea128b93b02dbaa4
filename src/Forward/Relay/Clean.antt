-- ===== src/Forward/Relay/Clean.antt =====
-- The whole run of a thread, of all that it sends.
use bev_search.Common.{
  ℕ, Bool, false, not, ◌&&◌, Option, some, none, List, [], ◌∷◌, ◌++◌, ◌≡◌, if◌then◌else◌,
}
use bev_search.CString.{Bytes}
use bev_search.CString.Number.{ℤ}
use bev_search.Auth.{Auth, ◌>>=◌}
use bev_search.Hlist.{Hlist}
use bev_search.RrData.{RrData, dup_rr_data}
use bev_search.Ntlm.Keys.{Crypto}
use bev_search.Parents.{Cache, live, freed}
use bev_search.Forward.{Pool}
use bev_search.Forward.Relay.Holds.{Holds, missing, present, Holds-if, Holds-bind, Holds-at}
use bev_search.Forward.Relay.{
  Turn, State, Event, Rc, End, bails, retries, loops, done, minus_one, stored, dropped, error_page,
  pass, known_host, Place, beginning, looping, Run, kept, bailout, Start, obtain, Next, finished,
  goes_on, ended_at, after_pass, one_pass, started, turned, relay, forward_request,
}
use bev_search.Forward.Relay.Reports.{AllClean, AllClean-append, one_more, pass-clean}

module _ (ntlm_response : Bytes → Auth → Option Bytes) (resolve : ℕ → Bytes → Option ℕ)
    (connect : ℕ → ℕ → ℕ → ℤ) where
  abbrev RunClean : Run → Type 0
  RunClean run = AllClean ntlm_response resolve connect none run.events

  abbrev NextClean : Next → Type 0
  NextClean (finished run) = AllClean ntlm_response resolve connect none run.events
  NextClean (goes_on place events) = AllClean ntlm_response resolve connect none events

  module _ (crypto : Crypto) (header_list : Hlist) (serialize : Bool) where
    kept-clean :
        (s : State) (events : List Event) (rc : Rc) (cache : Cache)
        → AllClean ntlm_response resolve connect none events
        → Holds RunClean (kept s events rc cache)
    unfolding kept
    kept-clean s events rc freed h = missing
    kept-clean s events rc (live l) h =
        present
          (one_more ntlm_response resolve connect none events (stored s.sd s.tcreds) h (λ _. tt))

    bailout-clean :
        (closed : Bool) (s : State) (events : List Event) (rc : Rc) (alive : Bool)
        → AllClean ntlm_response resolve connect none events
        → Holds RunClean (bailout closed s events rc alive)
    unfolding bailout
    bailout-clean closed s events rc alive h =
        Holds-if (alive && s.authok && not s.pool.ntlmbasic && not closed)
          (kept-clean s events rc s.pool.cache h)
          (present (one_more ntlm_response resolve connect none events (dropped s.sd) h (λ _. tt)))

    leaves-clean :
        (closed : Bool) (s : State) (events : List Event) (rc : Rc) (alive : Bool)
        → AllClean ntlm_response resolve connect none events
        → Holds NextClean (bailout closed s events rc alive >>= λ run. some (finished run))
    leaves-clean closed s events rc alive h =
        Holds-bind (bailout closed s events rc alive) _ (λ run e. present (
          Holds-at (bailout closed s events rc alive) run e
            (bailout-clean closed s events rc alive h)))

    ended_at-clean :
        (turn : Turn) (s : State) (events : List Event) (end : End)
        → AllClean ntlm_response resolve connect none events
        → Holds NextClean
            (ended_at crypto ntlm_response resolve connect header_list serialize turn s events end)
    unfolding ended_at
    ended_at-clean turn s events (bails rc alive) h =
        leaves-clean turn.proxy_closed s events rc alive h
    ended_at-clean turn s events (retries data0) h = present h
    ended_at-clean turn s events (loops conn alive) h =
        Holds-if (conn && alive && not turn.proxy_closed && not turn.client_closed && not serialize)
          (present h)
          (leaves-clean turn.proxy_closed s events (if alive then done else minus_one) alive h)

    one_pass-clean :
        (turn : Turn) (events : List Event) (s : State) (data0 : RrData)
        → AllClean ntlm_response resolve connect none events
        → Holds NextClean (
            one_pass crypto ntlm_response resolve connect header_list serialize turn events s data0)
    unfolding one_pass after_pass
    one_pass-clean turn events s data0 h =
        let run = pass crypto ntlm_response resolve connect turn header_list s data0 in
        Holds-bind run _ (λ p e. ended_at-clean turn p.state (events ++ p.events) p.end (
          AllClean-append ntlm_response resolve connect none events p.events h (λ seen.
            Holds-at run p e
              (pass-clean ntlm_response resolve connect seen crypto turn header_list s data0))))

    started-clean :
        (turn : Turn) (events : List Event) (data0 : RrData) (start : Start)
        → AllClean ntlm_response resolve connect none events
        → Holds NextClean (
            started crypto ntlm_response resolve connect header_list serialize turn events data0
              start)
    unfolding started
    started-clean turn events data0 start h =
        Holds-if start.there (one_pass-clean turn events start.state data0 h) (
          leaves-clean turn.proxy_closed start.state (events ++ error_page ∷ []) minus_one false
            (one_more ntlm_response resolve connect none events error_page h (λ _. tt)))

    turned-clean :
        (turn : Turn) (events : List Event) (place : Place)
        → AllClean ntlm_response resolve connect none events
        → Holds NextClean
            (turned crypto ntlm_response resolve connect header_list serialize turn events place)
    unfolding turned
    turned-clean turn events (beginning pool hostname data0) h =
        Holds-bind
          (obtain crypto ntlm_response resolve connect header_list serialize turn pool
            (known_host hostname data0) pool.cache)
          _ (λ start e. started-clean turn events data0 start h)
    turned-clean turn events (looping s data0) h = one_pass-clean turn events s data0 h

    relay-clean :
        (turns : List Turn) (events : List Event) (place : Place)
        → AllClean ntlm_response resolve connect none events
        → Holds RunClean
            (relay crypto ntlm_response resolve connect header_list serialize turns events place)
    unfolding relay
    relay-clean [] events place h = present h
    relay-clean (turn ∷ turns) events place h =
        let step =
          turned crypto ntlm_response resolve connect header_list serialize turn events place in
        Holds-bind step _ (λ next e.
          elim next
              as (λ next.
                NextClean next
                → Holds RunClean (elim next [
                  | finished run ↦ some run
                  | goes_on place' events' ↦
                      relay crypto ntlm_response resolve connect header_list serialize turns events'
                        place'
                ])) [
                  | finished run ↦ λ c. present c
                  | goes_on place' events' ↦ λ c. relay-clean turns events' place' c
                ]
            (Holds-at step next e (turned-clean turn events place h)))

    -- Whatever the client, the proxy and the parents do, the first Proxy-Authorization of what a thread
    -- sends to the proxy is never the client's: in the first message of a handshake it is the NTLM
    -- request of the thread's credentials; in a request that follows such a message at once it is
    -- composed, of the same credentials, for the challenge of the answer to that message, if there is
    -- one; and in any other request there is none. An answer that it sends to the client has no
    -- Proxy-Authenticate, unless its code is 407: then the first one is the realm of this program. A
    -- message of the client that is no request is left out.
    pub forward_request-IsClean :
        (turns : List Turn) (pool : Pool) (data0 : RrData) (run : Run)
        → forward_request crypto ntlm_response resolve connect header_list serialize turns pool
            data0
          ≡ some run
        → AllClean ntlm_response resolve connect none run.events
    unfolding forward_request
    forward_request-IsClean turns pool data0 run e =
        Holds-at _ run e (relay-clean turns [] (beginning pool none (dup_rr_data data0)) tt)
