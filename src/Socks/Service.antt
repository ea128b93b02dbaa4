-- ===== src/Socks/Service.antt =====
-- A thread of the service: the dialogue, the connection, and the tunnel.
pub mod Access
pub mod Welcome
use mathlib.Core.Option
use bev_search.Common.{
  ℕ, ◌+◌, ◌-◌, ◌*◌, Bool, true, false, not, Option, none, some, List, [], ◌∷◌, ◌++◌, ◌==◌,
  if◌then◌else◌, length, replicate,
}
use bev_search.CString.{Bytes, codes}
use bev_search.CString.Number.{ℤ, pos, negsuc}
use bev_search.Strings.{c_str, strlcat}
use bev_search.Hlist
use bev_search.Hlist.{Hlist}
use bev_search.Plist.{Plist}
use bev_search.Http.Header.{digits}
use bev_search.Auth.{Auth, minibuf_size, new_auth}
use bev_search.Parents.{Parents, Cache, Connected, proxy_connect}
use bev_search.NoProxy.{noproxy_match}
use bev_search.Socks.Session.{Session, Step, go, bail, fault, M, ◌>>=◌, ◌>>◌}
use bev_search.Socks.Dialogue.{negotiate, authenticate, reply, read_request}

-- The state that the threads share.
pub record Gateway : Type 0 where
  pub users : Hlist
  pub noproxy : Plist Bytes
  pub parents : Parents
  pub cache : Cache
  pub g_creds : Auth
  pub ntlmbasic : Bool

-- The descriptor of a connection, whether it leads to the target, and the state afterwards.
pub record Dialled : Type 0 where
  pub sd : ℤ
  pub open_way : Bool
  pub gateway : Gateway

-- What a thread has done: its session, the target that it tried to reach, and the descriptor that it
-- joined to the client's.
pub record Outcome : Type 0 where
  pub session : Session
  pub target : Option (Bytes × ℕ)
  pub tunnel : Option ℤ
  pub gateway : Gateway

-- The dialogue up to the target.
unfoldable pub dialogue : Hlist → M (Bytes × ℕ)
dialogue users =
    negotiate (Hlist.count users == 0) >>= λ found. authenticate users found >> read_request

is_descriptor : ℤ → Bool
is_descriptor (pos n) = true
is_descriptor (negsuc n) = false

-- `thost` with the port behind a colon, in its buffer.
with_port : Bytes → ℕ → Option Bytes
with_port thost port =
    let buf = thost ++ replicate (minibuf_size - length thost) 0 in
    elim (strlcat buf (codes ":") minibuf_size) [
      | none ↦ none
      | some r ↦ Option.map (λ r. c_str r.0) (strlcat r.0 (digits 5 port) minibuf_size)
    ]

-- The C library, the resolver and the kernel, and the request to the parent proxy
-- (`prepare_http_connect`).
module _ (fnmatch : Bytes → Bytes → Bool) (resolve : ℕ → Bytes → Option ℕ) (connect : ℕ → ℕ → ℕ → ℤ)
    (prepare : ℤ → Option Auth → Bytes → Bool) where
  unfoldable pub host_connect : Bytes → ℕ → ℤ
  host_connect hostname port = elim (resolve 0 hostname) [
    | none ↦ negsuc 0
    | some addr ↦ connect 0 addr port
  ]

  through_parent : Gateway → Bytes → Connected → Dialled
  unfolding is_descriptor
  through_parent g thost r = record {
    sd = r.conn;
    open_way = if is_descriptor r.conn then prepare r.conn r.credentials thost else false;
    gateway = record g { parents = r.parents; cache = r.cache };
  }

  -- Directly to an exception, and to the others through a parent proxy.
  unfoldable pub dial : Gateway → Bytes → ℕ → Option Dialled
  unfolding through_parent with_port is_descriptor
  dial g thost port =
      if noproxy_match fnmatch g.noproxy thost
      then (let sd = host_connect thost port in
          some (record { sd = sd; open_way = is_descriptor sd; gateway = g }))
      else elim (with_port thost port) [
        | none ↦ none
        | some full ↦
            Option.map (through_parent g full) (
              proxy_connect resolve connect g.parents g.cache g.g_creds g.ntlmbasic (some new_auth))
      ]

  -- The reply to the request, and the tunnel if there is a way.
  finish : Session → Bytes × ℕ → Dialled → Outcome
  finish s target d = record {
    session = record s { writes = s.writes ++ reply (if d.open_way then 0 else 1) ∷ [] };
    target = some target;
    tunnel = if d.open_way then some d.sd else none;
    gateway = d.gateway;
  }

  after_dialogue : Gateway → Step (Bytes × ℕ) → Option Outcome
  unfolding finish
  after_dialogue g (go (thost, port) s) = Option.map (finish s (thost, port)) (dial g thost port)
  after_dialogue g (bail s) =
      some (record { session = s; target = none; tunnel = none; gateway = g })
  after_dialogue g fault = none

  unfoldable pub socks5_thread : Gateway → List (Option Bytes) → Option Outcome
  unfolding after_dialogue
  socks5_thread g reads =
      after_dialogue g (dialogue g.users (record { reads = reads; writes = [] }))
