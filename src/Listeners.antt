-- ===== src/Listeners.antt =====
-- The ports that the program listens on: `listen_add` and `tunnel_add` of cntlm-0.92.3/main.c. The
-- resolver and `so_listen` are parameters; `none` is an access outside of a text.
pub mod Forms
use bev_search.Common.{
  ℕ, zero, suc, ◌+◌, ◌^◌, Bool, ◌||◌, Option, none, some, List, [], ◌∷◌, ◌++◌, ltb, ◌==◌,
  if◌then◌else◌, length, drop,
}
use bev_search.CString.{Bytes, strcspn}
use bev_search.CString.Number.{ℤ, pos, negsuc, is_pos, atoi}
use bev_search.Strings.{substr}
use bev_search.Socket.{int_of}
use bev_search.Plist
use bev_search.Plist.{Plist, ulong_of}
use bev_search.Auth.{◌>>=◌}

-- `htonl(gateway ? INADDR_ANY : INADDR_LOOPBACK)`, on a machine with the low byte first.
abbrev pub default_source : Bool → ℕ
default_source gateway = if gateway then 0 else 0x0100007f

-- The end of the program, or the list as it is then; what belongs to a descriptor is the target of
-- a tunnel, or nothing.
pub data Registered : Type 0 where
  exits : Registered
  registered : Plist Bytes → Registered

-- What `so_listen` returned, if that is a descriptor.
unfoldable pub register : Plist Bytes → ℤ → Option Bytes → Registered
register list (pos i) aux =
    registered (if i == 0 then list else Plist.add list (ulong_of (int_of i)) aux)
register list (negsuc i) aux = registered list

-- The text up to a delimiter, and what is behind it.
abbrev pub onto_first : ℕ → List Bytes → List Bytes
onto_first c [] = (c ∷ []) ∷ []
onto_first c (field ∷ fields) = (c ∷ field) ∷ fields

-- The fields of a text, with so many delimiters that are left.
unfoldable pub fields_of : ℕ → Bytes → List Bytes
fields_of zero spec = spec ∷ []
fields_of (suc more) [] = [] ∷ []
fields_of (suc more) (c ∷ spec) =
    let next = [] ∷ fields_of more spec in
    let same = onto_first c (fields_of (suc more) spec) in if c == b':' then next else same

module _ (so_resolv : Bytes → Option ℕ) (so_listen : ℕ → ℕ → ℤ) where
  -- The tests of the port, and the socket.
  unfoldable pub bind_port : Plist Bytes → ℕ → ℕ → Option Bytes → Registered
  bind_port list port source aux =
      if port == 0 then exits else register list (so_listen port source) aux

  unfoldable pub bind_named : Plist Bytes → ℕ → Option Bytes → Option ℕ → Registered
  bind_named list port aux none = exits
  bind_named list port aux (some source) = bind_port list port source aux

  unfoldable pub listen_add : Plist Bytes → Bytes → Bool → Option Registered
  listen_add list spec gateway =
      let p = strcspn spec b':' in
      if ltb (p + 1) (length spec)
      then (substr spec 0 p >>= λ tmp.
          some (bind_named list (atoi (drop (p + 1) spec)) none (so_resolv tmp)))
      else some (bind_port list (atoi spec) (default_source gateway) none)

  -- A tunnel to `host:rport`.
  unfoldable pub tunnel_to : Plist Bytes → Bytes → Bytes → Bytes → Option ℕ → Registered
  tunnel_to list lport host rport none = exits
  tunnel_to list lport host rport (some source) =
      if atoi lport == 0 || length host == 0 || length rport == 0
      then exits
      else register list (so_listen (atoi lport) source) (some (host ++ b':' ∷ rport))

  -- By the number of fields; with four the first is the address.
  unfoldable pub tunnel_fields : Plist Bytes → List Bytes → Bool → Registered
  tunnel_fields list (lport ∷ host ∷ rport ∷ []) gateway =
      tunnel_to list lport host rport (some (default_source gateway))
  tunnel_fields list (laddress ∷ lport ∷ host ∷ rport ∷ []) gateway =
      tunnel_to list lport host rport (so_resolv laddress)
  tunnel_fields list fields gateway = exits

  unfoldable pub tunnel_add : Plist Bytes → Bytes → Bool → Registered
  tunnel_add list spec gateway = tunnel_fields list (fields_of 3 spec) gateway
