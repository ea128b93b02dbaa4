-- ===== src/Forward/Relay.antt =====
-- Requests through the parent proxy: `forward_request` of cntlm-0.92.3/forward.c, with the scanner
-- plugin off. A run follows what the client and the proxy do, turn by turn.
mod Headers
unfoldable pub use Headers.*
mod Answering
unfoldable pub use Answering.*
mod Asking
unfoldable pub use Asking.*
pub mod Stripped
pub mod Holds
pub mod Reports
pub mod Clean
use bev_search.Common.{
  ℕ, Bool, true, false, not, ◌&&◌, ◌||◌, Option, none, some, List, [], ◌∷◌, ◌++◌, ltb, ◌==◌,
  if◌then◌else◌,
}
use bev_search.CString.{Bytes, same_nocase}
use bev_search.CString.Number.{ℤ, is_pos, signed}
use bev_search.Socket.{so_closed}
use bev_search.Plist
use bev_search.Plist.{Plist, Popped, ulong_of}
use bev_search.Auth.{Auth, new_auth, ◌>>=◌}
use bev_search.Parents.{Cache, live, freed, Connected, proxy_connect}
use bev_search.Hlist.{Hlist}
use bev_search.Ntlm.Keys.{Crypto}
use bev_search.RrData.{RrData, new_rr_data, dup_rr_data}
use bev_search.Forward.{Pool, bits}

-- Where the thread is: at `beginning` with a request, and the name of the server if it is known, or
-- in the loop with a structure for the next request.
pub data Place : Type 0 where
  beginning : Pool → Option Bytes → RrData → Place
  looping : State → RrData → Place

abbrev pub pool_of : Place → Pool
pool_of (beginning pool hostname data0) = pool
pool_of (looping s data0) = s.pool

-- What was sent, the result, if the thread has one within its turns, and the shared state.
pub record Run : Type 0 where
  pub events : List Event
  pub rc : Option Rc
  pub pool : Pool

-- What follows the label `bailout`.
unfoldable pub store : Pool → Plist Auth → State → Pool
store pool l s = record pool { cache = live (Plist.add l (ulong_of (bits s.sd)) (some s.tcreds)) }

unfoldable pub kept : State → List Event → Rc → Cache → Option Run
kept s events rc freed = none
kept s events rc (live l) =
    some (record {
      events = events ++ stored s.sd s.tcreds ∷ [];
      rc = some rc;
      pool = store s.pool l s;
    })

unfoldable pub bailout : Bool → State → List Event → Rc → Bool → Option Run
bailout closed s events rc proxy_alive =
    let saved = kept s events rc s.pool.cache in
    if proxy_alive && s.authok && not s.pool.ntlmbasic && not closed
    then saved
    else some (record { events = events ++ dropped s.sd ∷ []; rc = some rc; pool = s.pool })

-- `hostname`, which is set once.
unfoldable pub known_host : Option Bytes → RrData → Option Bytes
known_host none data0 = data0.hostname
known_host (some hostname) data0 = some hostname

-- A thread with its connection, or without one.
pub record Start : Type 0 where
  pub state : State
  pub there : Bool

unfoldable pub cached : Pool → Option Bytes → Popped Auth → Option Start
cached pool hostname popped = popped.aux >>= λ tcreds. some (record {
  state = record {
    pool = record pool { cache = live popped.rest };
    tcreds = tcreds;
    sd = signed popped.id;
    authok = true;
    noauth = false;
    was_cached = true;
    hostname = hostname;
  };
  there = true;
})

unfoldable pub dialled : Pool → Option Bytes → Connected → Option Start
dialled pool hostname r = r.credentials >>= λ tcreds. some (record {
  state = record {
    pool = record pool { parents = r.parents; cache = r.cache };
    tcreds = tcreds;
    sd = r.conn;
    authok = false;
    noauth = false;
    was_cached = false;
    hostname = hostname;
  };
  there = is_pos r.conn;
})

-- What comes after a pass: the result, or the place where the thread goes on.
pub data Next : Type 0 where
  finished : Run → Next
  goes_on : Place → List Event → Next

module _ (crypto : Crypto) (ntlm_response : Bytes → Auth → Option Bytes)
    (resolve : ℕ → Bytes → Option ℕ) (connect : ℕ → ℕ → ℕ → ℤ) (header_list : Hlist)
    (serialize : Bool) where
  -- A cached connection that is open, or a new one.
  unfoldable pub obtain : Turn → Pool → Option Bytes → Cache → Option Start
  obtain turn pool hostname freed = none
  obtain turn pool hostname (live l) =
      let popped = Plist.pop turn.pooled l in
      let new_one =
        proxy_connect resolve connect pool.parents (live popped.rest) pool.g_creds pool.ntlmbasic
          (some new_auth)
        >>= dialled pool hostname in
      if popped.id == 0 then new_one else cached pool hostname popped

  unfoldable pub ended_at : Turn → State → List Event → End → Option Next
  ended_at turn s events (bails rc proxy_alive) =
      bailout turn.proxy_closed s events rc proxy_alive >>= λ run. some (finished run)
  ended_at turn s events (retries data0) = some (goes_on (beginning s.pool s.hostname data0) events)
  ended_at turn s events (loops conn_alive proxy_alive) =
      let leaves =
        bailout turn.proxy_closed s events (if proxy_alive then done else minus_one) proxy_alive
        >>= λ run. some (finished run) in
      if conn_alive
        && proxy_alive
        && not turn.proxy_closed
        && not turn.client_closed
        && not serialize
      then some (goes_on (looping s new_rr_data) events)
      else leaves

  unfoldable pub after_pass : Turn → List Event → Pass → Option Next
  after_pass turn events p = ended_at turn p.state (events ++ p.events) p.end

  unfoldable pub one_pass : Turn → List Event → State → RrData → Option Next
  one_pass turn events s data0 =
      pass crypto ntlm_response resolve connect turn header_list s data0 >>= after_pass turn events

  unfoldable pub started : Turn → List Event → RrData → Start → Option Next
  started turn events data0 start =
      let onward = one_pass turn events start.state data0 in
      let failed =
        bailout turn.proxy_closed start.state (events ++ error_page ∷ []) minus_one false >>= λ run.
        some (finished run) in
      if start.there then onward else failed

  unfoldable pub turned : Turn → List Event → Place → Option Next
  turned turn events (beginning pool hostname data0) =
      obtain turn pool (known_host hostname data0) pool.cache >>= started turn events data0
  turned turn events (looping s data0) = one_pass turn events s data0

  -- The turns, one after the other; without a result when they are used up.
  unfoldable pub relay : List Turn → List Event → Place → Option Run
  relay [] events place = some (record { events = events; rc = none; pool = pool_of place })
  relay (turn ∷ turns) events place = turned turn events place >>= λ next. elim next [
    | finished run ↦ some run
    | goes_on place' events' ↦ relay turns events' place'
  ]

  unfoldable pub forward_request : List Turn → Pool → RrData → Option Run
  forward_request turns pool given_request =
      relay turns [] (beginning pool none (dup_rr_data given_request))
