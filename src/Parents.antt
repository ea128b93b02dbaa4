-- ===== src/Parents.antt =====
-- The parent proxies: `parent_add` of cntlm-0.92.3/main.c and `proxy_connect` of
-- cntlm-0.92.3/forward.c, as one thread runs them. The resolver and the kernel are parameters, which
-- may answer otherwise at each attempt. `none` is an access through NULL, or outside of memory.
pub mod Add
pub mod Rotation
pub mod Rounds
pub mod Connect
use mathlib.Core.Option
use bev_search.Common.{
  ℕ, zero, suc, ◌+◌, ◌-◌, Bool, true, false, not, ◌||◌, Option, none, some, List, [], ◌∷◌, map, ltb,
  leb, ◌==◌, if◌then◌else◌, length, take, drop, replicate,
}
use bev_search.CString.{Bytes}
use bev_search.CString.Number.{ℤ, pos, negsuc, is_pos, atoi}
use bev_search.Strings.{c_str, strlcpy}
use bev_search.Socket.{int_of}
use bev_search.Plist
use bev_search.Plist.{PNode, Plist, ulong_of}
use bev_search.Auth.{Auth, ◌>>=◌, copy_auth}

-- `proxy_t`; its member `creds` is not used.
pub record Proxy : Type 0 where
  pub hostname : Bytes
  pub host : ℕ
  pub port : ℕ
  pub resolved : Bool

-- `parent_list`, `parent_count` and `parent_curr`.
pub record Parents : Type 0 where
  pub list : Plist Proxy
  pub count : ℕ
  pub curr : ℕ

-- `strcspn(s, ": ")`
unfoldable pub host_span : Bytes → ℕ
host_span [] = 0
host_span (c ∷ s) = if c == b':' || c == 32 then 0 else suc (host_span s)

unfoldable pub skip_blanks : Bytes → Bytes
skip_blanks [] = []
skip_blanks (c ∷ s) = let rest = skip_blanks s in if c == 32 || c == 9 then rest else c ∷ s

-- A specification: without what follows the host's delimiter, or a host and a port.
pub data Spec : Type 0 where
  incomplete : Spec
  spec : (host : Bytes) (port : ℕ) → Spec

unfoldable pub parse_parent : Bytes → ℕ → Spec
unfolding host_span skip_blanks
parse_parent proxy port =
    let i = host_span proxy in
    let rest = skip_blanks (drop (i + 1) proxy) in
    if i == length proxy
    then spec proxy port
    else if length rest == 0
    then incomplete
    else spec (take i proxy) (atoi rest)

-- The result 0, the end of the program, or the result 1 with the new list.
pub data Added : Type 0 where
  rejected exits : Added
  added : Parents → Added

add_proxy : Parents → Bytes → ℕ → Option Added
add_proxy ps host port = strlcpy (replicate 64 0) host 64 >>= λ r. some (
    added (record ps {
      list =
          Plist.add ps.list (ulong_of (ps.count + 1))
            (some (record { hostname = r.0; host = 0; port = port; resolved = false }));
      count = ps.count + 1;
    }))

add_spec : Parents → Spec → Option Added
unfolding add_proxy
add_spec ps incomplete = some rejected
add_spec ps (spec host port) = if port == 0 then some exits else add_proxy ps host port

unfoldable pub parent_add : Parents → Bytes → ℕ → Option Added
unfolding add_spec
parent_add ps parent port = add_spec ps (parse_parent parent port)

-- `aux` is changed through the pointer that `plist_get` returned.
unfoldable pub set_aux : Plist Proxy → ℕ → Proxy → Plist Proxy
set_aux [] k p = []
set_aux (t ∷ ts) k p = if t.key == k then (record t { aux = some p }) ∷ ts else t ∷ set_aux ts k p

-- What stays of the cached connections: the list, or a pointer to memory that was freed.
pub data Cache : Type 0 where
  live : Plist Auth → Cache
  freed : Cache

-- `parent_curr = 0` at the end of the list, and `++parent_curr`.
unfoldable pub next_parent : Parents → ℕ
next_parent ps = (if leb ps.count ps.curr then 0 else ps.curr) + 1

module _ (resolve : ℕ → Bytes → Option ℕ) (connect : ℕ → ℕ → ℕ → ℤ) where
  -- The proxy with its address, if that is found.
  unfoldable pub resolved_proxy : ℕ → Proxy → Proxy
  resolved_proxy time p = if p.resolved then p else elim (resolve time (c_str p.hostname)) [
    | none ↦ p
    | some host ↦ record p { host = host; resolved = true }
  ]

  unfoldable pub attempt : ℕ → Proxy → ℤ
  attempt time p =
      let aux = resolved_proxy time p in
      if aux.resolved then connect time aux.host aux.port else pos 0

  -- The body of the loop. The next proxy's name is read for a message.
  unfoldable pub round : ℕ → Parents → Option (Parents × ℤ)
  round time ps = Plist.get ps.list ps.curr >>= λ aux.
      let tried = record ps {
        list = set_aux ps.list (ulong_of ps.curr) (resolved_proxy time aux);
      } in
      let i = attempt time aux in
      if is_pos i
      then some (tried, i)
      else (Plist.get tried.list (next_parent tried) >>= λ _.
          some (record tried { curr = next_parent tried }, i))

  -- The loop, with the rounds that may follow the first.
  unfoldable pub connect_loop : ℕ → ℕ → Parents → Option (Parents × ℤ)
  connect_loop zero time ps = round time ps
  connect_loop (suc more) time ps = round time ps >>= λ r.
      let later = connect_loop more (time + 1) r.0 in if is_pos r.1 then some r else later

-- The first call picks the first proxy.
unfoldable pub first_parent : Parents → Option Parents
first_parent ps =
    if ps.curr == 0 then (Plist.get ps.list 1 >>= λ _. some (record ps { curr = 1 })) else some ps

-- The connections that are closed, and what the pointer to them is afterwards.
unfoldable pub invalidate : Cache → Option (List ℕ × Cache)
invalidate (live []) = some ([], live [])
invalidate (live (t ∷ ts)) = some (map (λ t. int_of t.key) (t ∷ ts), freed)
invalidate freed = none

-- `if (i > 0 && credentials != NULL) copy_auth(…)`
unfoldable pub fill_credentials : ℤ → Auth → Bool → Option Auth → Option (Option Auth)
fill_credentials i g_creds ntlmbasic none = some none
fill_credentials i g_creds ntlmbasic (some credentials) =
    if is_pos i
    then Option.map some (copy_auth credentials g_creds (not ntlmbasic))
    else some (some credentials)

pub record Connected : Type 0 where
  pub parents : Parents
  pub conn : ℤ
  pub closed : List ℕ
  pub cache : Cache
  pub credentials : Option Auth

-- What follows the loop; `prev` is the parent before the call.
unfoldable pub after_loop : ℕ → Cache → Auth → Bool → Option Auth → Parents × ℤ → Option Connected
after_loop prev cache g_creds ntlmbasic credentials (ps, i) = do
  kept ← if prev == ps.curr then some ([], cache) else invalidate cache
  filled ← fill_credentials i g_creds ntlmbasic credentials
  some (record { parents = ps; conn = i; closed = kept.0; cache = kept.1; credentials = filled })

unfoldable pub proxy_connect :
    (ℕ → Bytes → Option ℕ)
    → (ℕ → ℕ → ℕ → ℤ)
    → Parents
    → Cache
    → Auth
    → Bool
    → Option Auth
    → Option Connected
proxy_connect resolve connect ps cache g_creds ntlmbasic credentials = do
  started ← first_parent ps
  r ← connect_loop resolve connect (ps.count - 1) 0 started
  after_loop ps.curr cache g_creds ntlmbasic credentials r
